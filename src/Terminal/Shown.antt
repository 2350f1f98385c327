-- ===== src/Terminal/Shown.antt =====
-- The binary messages that the bridge of internal/terminal/bridge.go has sent and queued, and what each
-- operation on its channels adds to them.
use herdr_phone.Base.{
  ℕ, List, [], ◌∷◌, ◌++◌, ◌≡◌, ◌∙◌, sym, ap, refl, true, Option, arith, ltb, Str, if_both, length,
  append-nil, append_assoc,
}
use herdr_phone.Terminal.Protocol.{ControllerCommand, ServerMessage}
use herdr_phone.Terminal.Channels.{
  OutMsg, binary, text, Wait, session_done, Bridge, stdin_capacity, set_close, write_one, stdin_one,
  put, send_text, put_stdin, send_stdin, stop_reading, shift_out,
}

-- The bytes of the binary messages.
abbrev pub shown : List OutMsg → Str
shown [] = []
shown (binary d ∷ ms) = d ++ shown ms
shown (text m ∷ ms) = shown ms

shown-append : (ms ns : List OutMsg) → shown (ms ++ ns) ≡ shown ms ++ shown ns
shown-append [] ns = refl
shown-append (binary d ∷ ms) ns = rw (shown-append ms ns, append_assoc) refl
shown-append (text m ∷ ms) ns = shown-append ms ns

-- Everything that has been put into the channel to the browser, in order.
abbrev pub all_out : {F : Type 0} → Bridge F → Str
all_out b = shown (b.sent ++ b.out)

module _ {F : Type 0} where
  -- What an operation that hands no frame on leaves as it is.
  pub record Same (b b' : Bridge F) : Type 0 where
    pub shown_same : all_out b' ≡ all_out b
    pub filter_same : b'.filter ≡ b.filter
    pub was_reading : b'.reading ≡ true → b.reading ≡ true

  pub Same-refl : (b : Bridge F) → Same b b
  Same-refl b = record { shown_same = refl; filter_same = refl; was_reading = λ h. h }

  pub Same-trans : (a b c : Bridge F) → Same a b → Same b c → Same a c
  Same-trans a b c h k = record {
    shown_same = k.shown_same ∙ h.shown_same;
    filter_same = k.filter_same ∙ h.filter_same;
    was_reading = λ r. h.was_reading (k.was_reading r);
  }

  pub set_close-Same :
      (b : Bridge F) (code : ℕ) (reason : Str) (final : Option ServerMessage)
      → Same b (set_close b code reason final)
  unfolding set_close
  set_close-Same b code reason final = ground arith

  shift_out-Same : (b : Bridge F) (ms : List OutMsg) → b.out ≡ ms → Same b (shift_out ms b)
  shift_out-Same b [] e = Same-refl b
  shift_out-Same b (m ∷ ms) e = record {
    shown_same = ap shown (append_assoc b.sent (m ∷ []) ms ∙ ap (λ z. b.sent ++ z) (sym e));
    filter_same = refl;
    was_reading = λ h. h;
  }

  pub write_one-Same : (b : Bridge F) → Same b (write_one b)
  unfolding write_one
  write_one-Same b = shift_out-Same b b.out refl

  pub stdin_one-Same : (b : Bridge F) → Same b (stdin_one b)
  unfolding stdin_one
  stdin_one-Same b = ground arith

  put-shown : (b : Bridge F) (m : OutMsg) → all_out (put b m) ≡ all_out b ++ shown (m ∷ [])
  put-shown b m =
      ap shown (sym (append_assoc b.sent b.out (m ∷ []))) ∙ shown-append (b.sent ++ b.out) (m ∷ [])

  pub send_text-Same : (b : Bridge F) (m : ServerMessage) (w : Wait) → Same b (send_text b m w)
  unfolding send_text
  send_text-Same b m session_done = Same-refl b
  send_text-Same b m w =
      if_both (Same b) (ltb (length b.out) b.opts.out_queue)
        (λ _. record {
          shown_same = put-shown b (text m) ∙ append-nil (all_out b);
          filter_same = refl;
          was_reading = λ h. h;
        })
        (λ _. Same-refl b)

  pub send_stdin-Same :
      (b : Bridge F) (c : ControllerCommand) (w : Wait) → Same b (send_stdin b c w)
  unfolding send_stdin
  send_stdin-Same b c session_done = Same-refl b
  send_stdin-Same b c w =
      if_both (λ (r : Bridge F). Same b (put_stdin r c)) (ltb (length b.stdin) stdin_capacity)
        (λ _. ground arith) (λ _. Same-trans b (stdin_one b) _ (stdin_one-Same b) (ground arith))

  -- The bytes `d` are handed on, all of them if the reader goes on.
  pub record Grows (b b' : Bridge F) (f : F) (d : Str) : Type 0 where
    pub lost : Str
    pub shown_grows : all_out b' ++ lost ≡ all_out b ++ d
    pub none_lost : b'.reading ≡ true → lost ≡ []
    pub filter_next : b'.filter ≡ f

  pub Same-Grows : (b b' : Bridge F) → Same b b' → Grows b b' b.filter []
  Same-Grows b b' h = record {
    lost = [];
    shown_grows = ap (λ z. z ++ []) h.shown_same;
    none_lost = λ _. refl;
    filter_next = h.filter_same;
  }

  pub after-Same : (a b c : Bridge F) (f : F) (d : Str) → Same a b → Grows b c f d → Grows a c f d
  after-Same a b c f d h k = record {
    lost = k.lost;
    shown_grows = k.shown_grows ∙ ap (λ z. z ++ d) h.shown_same;
    none_lost = k.none_lost;
    filter_next = k.filter_next;
  }

  pub stopped :
      (b : Bridge F) (d : Str) (b' : Bridge F) → Same b b' → Grows b (stop_reading b') b.filter d
  stopped b d b' h = record {
    lost = d;
    shown_grows = ap (λ z. z ++ d) h.shown_same;
    none_lost = λ r. ground arith;
    filter_next = h.filter_same;
  }

  pub stop_reading-Same : (b b' : Bridge F) → Same b b' → Same b (stop_reading b')
  stop_reading-Same b b' h = ground arith

  pub put-Grows : (b b' : Bridge F) (d : Str) → Same b b' → Grows b (put b' (binary d)) b.filter d
  put-Grows b b' d h = record {
    lost = [];
    shown_grows =
        append-nil (all_out (put b' (binary d)))
        ∙ put-shown b' (binary d)
        ∙ ap (λ z. all_out b' ++ z) (append-nil d)
        ∙ ap (λ z. z ++ d) h.shown_same;
    none_lost = λ _. refl;
    filter_next = h.filter_same;
  }
