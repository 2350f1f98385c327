-- ===== src/Terminal/Queues.antt =====
-- The sends on the channels of the bridge of internal/terminal/bridge.go keep its queues within their
-- capacity.
use herdr_phone.Base.{
  ℕ, ◌≤◌, ◌<◌, is_positive, to_nat, List, [], ◌∷◌, ◌≡◌, ◌⊎◌, refl, Bool, true, Option, none, some,
  arith, ltb, Str, bytes, if_both, length, length-append, All, All-append,
}
use herdr_phone.Terminal.Protocol.{
  ControllerCommand, input, resize, scroll, release, BrowserCommand, ServerMessage, Codec,
}
use herdr_phone.Terminal.Channels.{
  OutMsg, binary, text, Wait, got_room, timed_out, session_done, Bridge, stdin_capacity, set_close,
  write_one, stdin_one, put, send_text, enqueue, put_stdin, send_stdin, shift_out, shift_stdin,
  in_range,
}

-- What `handleInput` and `handleCommand` let through, of the inputs that were sent.
abbrev pub IsSafeCommand : Codec → ℕ → (Str → Type 0) → ControllerCommand → Type 0
IsSafeCommand lib limit sent (input s) =
    (data' : Str) × sent data'
    × (s ≡ lib.encode64 data')
    × (1 ≤ length data')
    × (length data' ≤ limit)
IsSafeCommand lib limit sent (resize c r w h) = (in_range c ≡ true) × (in_range r ≡ true)
IsSafeCommand lib limit sent (scroll direction n source) =
    ((direction ≡ bytes "up") ⊎ (direction ≡ bytes "down"))
    × (is_positive n ≡ true)
    × (to_nat n ≤ 10_000)
IsSafeCommand lib limit sent release = Unit

abbrev pub OptAll {ℓ} : {A : Type 0} → (A → Type ℓ) → Option A → Type ℓ
OptAll P none = Unit
OptAll P (some a) = P a

abbrev pub IsSafeResize : BrowserCommand → Type 0
IsSafeResize c = (in_range c.cols ≡ true) × (in_range c.rows ≡ true)

module _ {F : Type 0} (lib : Codec) (limit : ℕ) (cap : ℕ) (sent : Str → Type 0) where
  -- The limits are those of the options.
  pub record IsSafe (b : Bridge F) : Type 0 where
    pub limit_set : b.opts.max_input_bytes ≡ limit
    pub cap_set : b.opts.out_queue ≡ cap
    pub room : 1 ≤ cap
    pub out_bounded : length b.out ≤ cap
    pub stdin_bounded : length b.stdin ≤ 64
    pub stdin_safe : All (IsSafeCommand lib limit sent) b.stdin
    pub written_safe : All (IsSafeCommand lib limit sent) b.written
    pub resizes_safe : OptAll IsSafeResize b.resizes
    pub pending_safe : OptAll (IsSafeCommand lib limit sent) b.pending

  pub set_close-IsSafe :
      (b : Bridge F) (code : ℕ) (reason : Str) (final : Option ServerMessage)
      → IsSafe b
      → IsSafe (set_close b code reason final)
  unfolding set_close
  set_close-IsSafe b code reason final h = ground arith

  pub write_one-IsSafe : (b : Bridge F) → IsSafe b → IsSafe (write_one b)
  unfolding write_one
  write_one-IsSafe b h = ground arith

  shift_stdin-IsSafe :
      (b : Bridge F) (cs : List ControllerCommand)
      → length cs ≤ 64
      → All (IsSafeCommand lib limit sent) cs
      → IsSafe b
      → IsSafe (shift_stdin cs b)
  shift_stdin-IsSafe b [] n k h = h
  shift_stdin-IsSafe b (c ∷ cs) n k h = record {
    limit_set = h.limit_set;
    cap_set = h.cap_set;
    room = h.room;
    out_bounded = h.out_bounded;
    stdin_bounded = omega arith;
    stdin_safe = k.1;
    written_safe =
        All-append (IsSafeCommand lib limit sent) b.written (c ∷ []) h.written_safe (k.0, tt);
    resizes_safe = h.resizes_safe;
    pending_safe = h.pending_safe;
  }

  pub stdin_one-IsSafe : (b : Bridge F) → IsSafe b → IsSafe (stdin_one b)
  unfolding stdin_one
  stdin_one-IsSafe b h = shift_stdin-IsSafe b b.stdin h.stdin_bounded h.stdin_safe h

  pub send_text-IsSafe :
      (b : Bridge F) (m : ServerMessage) (w : Wait) → IsSafe b → IsSafe (send_text b m w)
  unfolding send_text
  send_text-IsSafe b m session_done h = h
  send_text-IsSafe b m w h = ground (arith, length-append b.out (text m ∷ []))

  pub enqueue-IsSafe : (b : Bridge F) (d : Str) (w : Wait) → IsSafe b → IsSafe (enqueue b d w).0
  unfolding enqueue write_one
  enqueue-IsSafe b d session_done h = h
  enqueue-IsSafe b d timed_out h =
      if_both (λ (r : Bridge F × Bool). IsSafe r.0) (ltb (length b.out) b.opts.out_queue)
        (λ free. ground (arith, free, length-append b.out (binary d ∷ [])))
        (λ _. set_close-IsSafe _ _ _ _ (ground arith))
  enqueue-IsSafe b d got_room h =
      if_both (λ (r : Bridge F). IsSafe (put r (binary d))) (ltb (length b.out) b.opts.out_queue)
        (λ free. ground (arith, free, length-append b.out (binary d ∷ [])))
        (λ _. shifted b.out refl)
    where
      shifted : (ms : List OutMsg) → b.out ≡ ms → IsSafe (put (shift_out ms b) (binary d))
      shifted [] e = ground (arith, length-append b.out (binary d ∷ []))
      shifted (m ∷ ms) e = ground (arith, length-append ms (binary d ∷ []))

  put_stdin-IsSafe :
      (b : Bridge F) (c : ControllerCommand)
      → length b.stdin < 64
      → IsSafeCommand lib limit sent c
      → IsSafe b
      → IsSafe (put_stdin b c)
  put_stdin-IsSafe b c n k h = record {
    limit_set = h.limit_set;
    cap_set = h.cap_set;
    room = h.room;
    out_bounded = h.out_bounded;
    stdin_bounded = omega (arith, length-append b.stdin (c ∷ []));
    stdin_safe = All-append (IsSafeCommand lib limit sent) b.stdin (c ∷ []) h.stdin_safe (k, tt);
    written_safe = h.written_safe;
    resizes_safe = h.resizes_safe;
    pending_safe = h.pending_safe;
  }

  stdin_one-room : (b : Bridge F) → length b.stdin ≤ 64 → length (stdin_one b).stdin < 64
  unfolding stdin_one
  stdin_one-room b h = ground arith

  pub send_stdin-IsSafe :
      (b : Bridge F) (c : ControllerCommand) (w : Wait)
      → IsSafeCommand lib limit sent c
      → IsSafe b
      → IsSafe (send_stdin b c w)
  unfolding send_stdin
  send_stdin-IsSafe b c session_done k h = h
  send_stdin-IsSafe b c w k h =
      if_both (λ (r : Bridge F). IsSafe (put_stdin r c)) (ltb (length b.stdin) stdin_capacity)
        (λ free. put_stdin-IsSafe b c (ground arith) k h)
        (λ _.
          put_stdin-IsSafe (stdin_one b) c (stdin_one-room b h.stdin_bounded) k
            (stdin_one-IsSafe b h))
