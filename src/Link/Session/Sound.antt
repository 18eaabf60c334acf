-- ===== src/Link/Session/Sound.antt =====
-- What a value returned by `transact` is: the checked payload of a reply to this request.
use nano_ql.Base.{
  ℕ, zero, suc, ◌+◌, ◌%◌, ◌≡◌, refl, ◌∙◌, ◌⊎◌, inl, inr, false, arith, length, Bytes,
}
use nano_ql.Base.Exec.{ok}
use nano_ql.Link.Frame.{request_frame}
use nano_ql.Link.Serial.{Serial}
use nano_ql.Link.Session.{
  Session, is_error_reply, answered, with_port, pause, reopen, reconnect_loop, reconnect, exchange,
  attempt, transact_loop, transact,
}

module _ (d : Serial) where
  open d use {Port}

  exchange-sequence :
      (frame : Bytes) (s : Session Port) → (exchange d frame s).1.sequence ≡ s.sequence
  unfolding exchange
  exchange-sequence frame s = ground arith

  attempt-sequence :
      (frame : Bytes) (sent attempts : ℕ) (s : Session Port)
      → (attempt d frame sent attempts s).2.sequence ≡ s.sequence
  unfolding attempt
  attempt-sequence frame sent attempts s = ground (arith, exchange-sequence frame s)

  reopen-sequence : (s : Session Port) → (reopen d s).1.sequence ≡ s.sequence
  unfolding reopen
  reopen-sequence s = ground arith

  reconnect_loop-sequence :
      (n deadline : ℕ) (s : Session Port) → (reconnect_loop d n deadline s).1.sequence ≡ s.sequence
  unfolding reconnect_loop
  reconnect_loop-sequence zero deadline s = refl
  reconnect_loop-sequence (suc n) deadline s =
      ground
        (arith, reopen-sequence s, reconnect_loop-sequence n deadline (pause d 250 (reopen d s).1))

  reconnect-sequence :
      (deadline : ℕ) (s : Session Port) → (reconnect d deadline s).1.sequence ≡ s.sequence
  unfolding reconnect
  reconnect-sequence deadline s =
      ground (arith, reconnect_loop-sequence 61 deadline (with_port d s (d.close_port s.port).1))

  attempt_answered :
      (frame : Bytes) (sent attempts : ℕ) (s : Session Port) (p : Bytes)
      → (attempt d frame sent attempts s).0 ≡ answered p
      → ((exchange d frame s).0 ≡ ok p)
        × (is_error_reply p ≡ false)
        × ((attempt d frame sent attempts s).2 ≡ (exchange d frame s).1)
  unfolding attempt
  attempt_answered frame sent attempts s p h = ground arith

  -- Some exchange of this frame, under the number of `s`, gave `p` and left `t`.
  abbrev pub AnsweredBy : Bytes → Session Port → Bytes → Session Port → Type 0
  AnsweredBy frame s p t =
      (u : Session Port) × (u.sequence ≡ s.sequence)
      × (exchange d frame u ≡ (ok p, t))
      × (is_error_reply p ≡ false)

  loop_cases :
      (n : ℕ) (frame : Bytes) (sent deadline attempts : ℕ) (s t : Session Port) (p : Bytes)
      → transact_loop d (suc n) frame sent deadline attempts s ≡ (ok p, t)
      → let (o, attempts', s') = attempt d frame sent attempts s in
        let s'' = (reconnect d deadline s').1 in
        ((o ≡ answered p) × (s' ≡ t))
        ⊎ (transact_loop d n frame sent deadline attempts' s' ≡ (ok p, t))
        ⊎ (transact_loop d n frame sent deadline (attempts' + 1) s'' ≡ (ok p, t))
  unfolding transact_loop
  loop_cases n frame sent deadline attempts s t p h = ground arith

  transact_loop-AnsweredBy :
      (n : ℕ) (frame : Bytes) (sent deadline attempts : ℕ) (s t : Session Port) (p : Bytes)
      → transact_loop d n frame sent deadline attempts s ≡ (ok p, t)
      → AnsweredBy frame s p t
  unfolding transact_loop
  transact_loop-AnsweredBy zero frame sent deadline attempts s t p h = cc
  transact_loop-AnsweredBy (suc n) frame sent deadline attempts s t p h =
      let (o, attempts', s') = attempt d frame sent attempts s in
      let s'' = (reconnect d deadline s').1 in
      elim (loop_cases n frame sent deadline attempts s t p h) [
        | inl e ↦
            let f = attempt_answered frame sent attempts s p e.0 in
            (s, refl, cc (f.0, f.2, e.1), f.1)
        | inr (inl e) ↦
            let r = transact_loop-AnsweredBy n frame sent deadline attempts' s' t p e in
            (r.0, r.1 ∙ attempt-sequence frame sent attempts s, r.2, r.3)
        | inr (inr e) ↦
            let r = transact_loop-AnsweredBy n frame sent deadline (attempts' + 1) s'' t p e in
            (
              r.0,
              r.1 ∙ (reconnect-sequence deadline s' ∙ attempt-sequence frame sent attempts s),
              r.2,
              r.3,
            )
      ]

  -- A payload that `transact` returns is no error report. It was read in an exchange of the frame
  -- of the request under the next sequence number, and the session is the one that this exchange
  -- left.
  pub transact-AnsweredBy :
      (payload p : Bytes) (s t : Session Port)
      → transact d payload s ≡ (ok p, t)
      → AnsweredBy
          (request_frame ((s.sequence + 1) % 256) payload)
          (record s { sequence = (s.sequence + 1) % 256 })
          p
          t
  unfolding transact
  transact-AnsweredBy payload p s t h =
      transact_loop-AnsweredBy 4 (request_frame ((s.sequence + 1) % 256) payload) (length payload)
        (d.monotonic s.port + 15000) 0 (record s { sequence = (s.sequence + 1) % 256 }) t p
        (ground arith)
