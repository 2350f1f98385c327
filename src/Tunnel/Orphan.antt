-- ===== src/Tunnel/Orphan.antt =====
-- The reconciliation of a child that outlived its daemon: internal/tunnel/orphan.go. The operating
-- system, JSON and `filepath.Base` are the fields of `Host`; a pid or time that is not positive is 0.
use herdr_phone.Base.{
  ℕ, ◌+◌, ◌≤◌, ◌==◌, List, [], ◌∷◌, ◌≡◌, ◌≢◌, ◌⊎◌, inl, inr, refl, Bool, true, false, not, ◌&&◌,
  ◌||◌, Option, none, some, arith, leb, Str, str_eq, str_eq_iff, if◌then◌else◌, if_both,
  Option-cases, ap, All, Any,
}

pub record PidRecord : Type 0 where
  pub pid : ℕ
  pub binary : Str
  pub created_unix_ms : ℕ

-- `comm` and `start_ms` are what `ps` prints, trimmed and parsed.
pub record Host : Type 0 where
  pub read_json : Str → Option PidRecord
  pub alive : ℕ → Bool
  pub comm : ℕ → Option Str
  pub start_ms : ℕ → Option ℕ
  pub trim_space : Str → Str
  pub base : Str → Str

pub data Action : Type 0 where
  sigterm sigkill : ℕ → Action

abbrev pub start_time_tolerance : ℕ
start_time_tolerance = 3000

abbrev pub is_blank : ℕ → Bool
is_blank b = b == 32 || b == 9

abbrev pub first_field : Str → Str
first_field [] = []
first_field (b ∷ s) = if is_blank b then [] else b ∷ first_field s

-- `terminateGroup`, given what each look at the process shows until the deadline.
abbrev pub kill_unless_gone : ℕ → List Bool → List Action
kill_unless_gone pid [] = sigkill pid ∷ []
kill_unless_gone pid (still_alive ∷ looks) = if still_alive then kill_unless_gone pid looks else []

unfoldable pub terminate_group : ℕ → List Bool → List Action
terminate_group pid looks = sigterm pid ∷ kill_unless_gone pid looks

module _ (host : Host) where
  abbrev checked_record : Option PidRecord → Option PidRecord
  checked_record none = none
  checked_record (some rec) = if rec.pid == 0 then none else some rec

  -- Of the contents of the pidfile, if it is there.
  unfoldable pub read_pid_record : Option Str → Option PidRecord
  read_pid_record none = none
  read_pid_record (some text) = checked_record (host.read_json text)

  abbrev based : Str → Str
  based [] = []
  based (b ∷ s) = host.base (first_field (b ∷ s))

  unfoldable pub command_base : Str → Str
  command_base s = based (host.trim_space s)

  abbrev pub is_near : ℕ → ℕ → Bool
  is_near start created =
      leb start (created + start_time_tolerance) && leb created (start + start_time_tolerance)

  abbrev check_start : PidRecord → Option ℕ → Option Bool
  check_start rec none = none
  check_start rec (some start) = some (is_near start rec.created_unix_ms)

  abbrev check_comm : PidRecord → Str → Option Str → Option Bool
  check_comm rec expected none = none
  check_comm rec expected (some comm) =
      if str_eq comm [] || not (str_eq (command_base comm) expected)
      then some false
      else if rec.created_unix_ms == 0
      then none
      else check_start rec (host.start_ms rec.pid)

  -- `verifyProcessIdentity`; `none` is an error.
  unfoldable pub verify_process_identity : PidRecord → Option Bool
  verify_process_identity rec =
      if str_eq (command_base rec.binary) []
      then none
      else check_comm rec (command_base rec.binary) (host.comm rec.pid)

  -- `removePidRecord`, which ignores the error of `os.Remove`.
  abbrev after_removal : Bool → Option Str → Option Str
  after_removal removed file = if removed then none else file

  abbrev reconcile_verified :
      Bool → Option Str → PidRecord → List Bool → Option Bool → Option Str × List Action
  reconcile_verified removed file rec looks (some true) =
      (after_removal removed file, terminate_group rec.pid looks)
  reconcile_verified removed file rec looks _ = (file, [])

  abbrev reconcile_record :
      Bool → Option Str → Option PidRecord → List Bool → Option Str × List Action
  reconcile_record removed file none looks = (file, [])
  reconcile_record removed file (some rec) looks =
      if not (host.alive rec.pid)
      then (after_removal removed file, [])
      else reconcile_verified removed file rec looks (verify_process_identity rec)

  -- `reconcileOrphan`: the pidfile that stays, and the signals that are sent. The Boolean says whether
  -- a removal of the pidfile succeeds.
  unfoldable pub reconcile_orphan : Bool → Option Str → List Bool → Option Str × List Action
  reconcile_orphan removed file looks = reconcile_record removed file (read_pid_record file) looks

  -- The live process of a record runs a command of the recorded name, and started within three
  -- seconds of the recorded time.
  pub record IsOurs (rec : PidRecord) : Type 0 where
    pub is_alive : host.alive rec.pid ≡ true
    pub command : Str
    pub command_of : host.comm rec.pid ≡ some command
    pub same_name : command_base command ≡ command_base rec.binary
    pub is_named : command_base rec.binary ≢ []
    pub shown : command ≢ []
    pub start : ℕ
    pub start_of : host.start_ms rec.pid ≡ some start
    pub recorded : rec.created_unix_ms ≢ 0
    pub not_later : start ≤ rec.created_unix_ms + 3000
    pub not_earlier : rec.created_unix_ms ≤ start + 3000

  checked_start :
      (rec : PidRecord) (o : Option ℕ)
      → check_start rec o ≡ some true
      → (start : ℕ) × (o ≡ some start)
        × (start ≤ rec.created_unix_ms + 3000)
        × (rec.created_unix_ms ≤ start + 3000)
  checked_start rec none h = ground arith
  checked_start rec (some start) h = (start, refl, ground arith, ground arith)

  checked_comm :
      (rec : PidRecord) (expected : Str) (o : Option Str)
      → check_comm rec expected o ≡ some true
      → (command : Str) × (o ≡ some command)
        × (command ≢ [])
        × (command_base command ≡ expected)
        × (rec.created_unix_ms ≢ 0)
        × (check_start rec (host.start_ms rec.pid) ≡ some true)
  checked_comm rec expected none h = ground arith
  checked_comm rec expected (some command) h = (
    command,
    refl,
    ground (arith, str_eq_iff command []),
    ground (arith, str_eq_iff (command_base command) expected),
    ground arith,
    ground arith,
  )

  checked_name :
      (rec : PidRecord)
      → verify_process_identity rec ≡ some true
      → (command_base rec.binary ≢ [])
        × (check_comm rec (command_base rec.binary) (host.comm rec.pid) ≡ some true)
  unfolding verify_process_identity
  checked_name rec h = ground (arith, str_eq_iff (command_base rec.binary) [])

  verified-IsOurs :
      (rec : PidRecord)
      → host.alive rec.pid ≡ true
      → verify_process_identity rec ≡ some true
      → IsOurs rec
  verified-IsOurs rec a h =
      let (named, ok) = checked_name rec h in
      let (command, found, shown, same, recorded, started) = checked_comm rec _ _ ok in
      let (start, start_of, not_later, not_earlier) = checked_start rec _ started in
      record {
        is_alive = a;
        command = command;
        command_of = found;
        same_name = same;
        is_named = named;
        shown = shown;
        start = start;
        start_of = start_of;
        recorded = recorded;
        not_later = not_later;
        not_earlier = not_earlier;
      }

  near_enough :
      (rec : PidRecord) (start : ℕ)
      → start ≤ rec.created_unix_ms + 3000
      → rec.created_unix_ms ≤ start + 3000
      → is_near start rec.created_unix_ms ≡ true
  near_enough rec start h k = ground arith

  str_eq-false : (s t : Str) → s ≢ t → str_eq s t ≡ false
  str_eq-false s t h = ground (arith, str_eq_iff s t)

  ours-verified : (rec : PidRecord) → IsOurs rec → verify_process_identity rec ≡ some true
  unfolding verify_process_identity
  ours-verified rec h =
      rw
        (
          str_eq-false (command_base rec.binary) [] h.is_named,
          h.command_of,
          str_eq-false h.command [] h.shown,
          (str_eq_iff (command_base h.command) (command_base rec.binary)).1 h.same_name,
        )
        (if_both (λ z. z ≡ some true) (rec.created_unix_ms == 0)
          (λ e. ground (arith, e, h.recorded))
          (λ _. rw h.start_of (ap some (near_enough rec h.start h.not_later h.not_earlier))))

  -- The signals of `terminateGroup`: to the pid, SIGTERM, and SIGKILL if every look sees it alive.
  abbrev pub IsTerminated : ℕ → List Bool → List Action → Type 0
  IsTerminated pid looks sent =
      (All (λ still_alive. still_alive ≡ true) looks × (sent ≡ sigterm pid ∷ sigkill pid ∷ []))
      ⊎ (Any (λ still_alive. still_alive ≡ false) looks × (sent ≡ sigterm pid ∷ []))

  killed :
      (pid : ℕ) (looks : List Bool)
      → (All (λ still_alive. still_alive ≡ true) looks
          × (kill_unless_gone pid looks ≡ sigkill pid ∷ []))
        ⊎ (Any (λ still_alive. still_alive ≡ false) looks × (kill_unless_gone pid looks ≡ []))
  killed pid [] = inl (tt, refl)
  killed pid (true ∷ looks) = elim (killed pid looks) [
    | inl (all, e) ↦ inl ((refl, all), e)
    | inr (any, e) ↦ inr (inr any, e)
  ]
  killed pid (false ∷ looks) = inr (inl refl, refl)

  terminate_group-IsTerminated :
      (pid : ℕ) (looks : List Bool) → IsTerminated pid looks (terminate_group pid looks)
  unfolding terminate_group
  terminate_group-IsTerminated pid looks = elim (killed pid looks) [
    | inl (all, e) ↦ inl (all, ap (λ (sent : List Action). sigterm pid ∷ sent) e)
    | inr (any, e) ↦ inr (any, ap (λ (sent : List Action). sigterm pid ∷ sent) e)
  ]

  -- The pidfile is gone, unless its removal fails.
  abbrev pub IsRemoved : Bool → Option Str → Option Str → Type 0
  IsRemoved removed file file' =
      ((removed ≡ true) × (file' ≡ none)) ⊎ ((removed ≡ false) × (file' ≡ file))

  removal :
      (removed : Bool) (file : Option Str) → IsRemoved removed file (after_removal removed file)
  removal true file = inl (refl, refl)
  removal false file = inr (refl, refl)

  abbrev pub IsReconciled :
      Bool → Option Str → PidRecord → List Bool → Option Str × List Action → Type 0
  IsReconciled removed file rec looks (file', sent) =
      ((host.alive rec.pid ≡ false) × IsRemoved removed file file' × (sent ≡ []))
      ⊎ ((IsOurs rec × IsRemoved removed file file' × IsTerminated rec.pid looks sent)
          ⊎ ((host.alive rec.pid ≡ true) × ¬ IsOurs rec × (file' ≡ file) × (sent ≡ [])))

  verified_at :
      (removed : Bool) (file : Option Str) (rec : PidRecord) (looks : List Bool) (v : Option Bool)
      → verify_process_identity rec ≡ v
      → host.alive rec.pid ≡ true
      → IsReconciled removed file rec looks (reconcile_verified removed file rec looks v)
  verified_at removed file rec looks (some true) e a = inr (
      inl
        (verified-IsOurs rec a e, removal removed file, terminate_group-IsTerminated rec.pid looks))
  verified_at removed file rec looks (some false) e a =
      inr (inr (a, (λ ours. ground (arith, e, ours-verified rec ours)), refl, refl))
  verified_at removed file rec looks none e a =
      inr (inr (a, (λ ours. ground (arith, e, ours-verified rec ours)), refl, refl))

  live_at :
      (removed : Bool) (file : Option Str) (rec : PidRecord) (looks : List Bool)
      → IsReconciled removed file rec looks (reconcile_record removed file (some rec) looks)
  live_at removed file rec looks =
      if_both (IsReconciled removed file rec looks) (not (host.alive rec.pid))
        (λ e. inl (ground (arith, e), removal removed file, refl))
        (λ e.
          verified_at removed file rec looks (verify_process_identity rec) refl (ground (arith, e)))

  -- What `reconcileOrphan` sends and leaves: a SIGTERM to the process group of the recorded pid, and
  -- then a SIGKILL exactly if no later look finds it gone, if the live process is verified to be the
  -- child; and no signal otherwise. The pidfile is removed if the process was signalled or is not
  -- alive, unless `os.Remove` fails, and stays if the process is alive and unverified, or if the
  -- pidfile holds no record.
  pub reconcile_orphan_lem :
      (removed : Bool) (file : Option Str) (looks : List Bool)
      → ((read_pid_record file ≡ none) × (reconcile_orphan removed file looks ≡ (file, [])))
        ⊎ ((rec : PidRecord) × (read_pid_record file ≡ some rec)
            × IsReconciled removed file rec looks (reconcile_orphan removed file looks))
  unfolding reconcile_orphan
  reconcile_orphan_lem removed file looks = elim (Option-cases (read_pid_record file)) [
    | inl e ↦ inl (e, rw e refl)
    | inr (rec, e) ↦ inr (rec, e, rw e (live_at removed file rec looks))
  ]
