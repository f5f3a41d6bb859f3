-- ===== src/Udap/Client/Send.antt =====
-- What retransmission amounts to: every attempt is made, and one success is enough.
use go_udap.Prelude.{
  ℕ, zero, suc, ◌+◌, ◌≡◌, ltb, Bool-cases, inl, inr, refl, Option, none, some, ◌==◌, if◌then◌else◌,
  arith, List, [], ◌∷◌, ap, ◌∙◌,
}
use go_udap.Prelude.Bytes.{Bytes}
use go_udap.Udap.Transport.{Transport, SendError}
use go_udap.Udap.Client.{
  Client, send_loop, send_attempts, max_int, send_retried, note_error, count_send,
}

-- The result of a row of attempts: success if one succeeded, otherwise the first error.
abbrev pub summary : List (Option SendError) → Option SendError
summary [] = none
summary (none ∷ rest) = none
summary (some e ∷ []) = some e
summary (some e ∷ o ∷ rest) = elim (summary (o ∷ rest)) [ none ↦ none | some _ ↦ some e ]

abbrev successes_in : List (Option SendError) → ℕ
successes_in [] = 0
successes_in (none ∷ rest) = suc (successes_in rest)
successes_in (some e ∷ rest) = successes_in rest

abbrev first_of_all : Option SendError → List (Option SendError) → Option SendError
first_of_all first [] = first
first_of_all first (o ∷ rest) = first_of_all (note_error first o) rest

count_sum :
    (k : ℕ) (o : Option SendError) (es : List (Option SendError))
    → count_send k o + successes_in es ≡ k + successes_in (o ∷ es)
count_sum k none es = omega arith
count_sum k (some e) es = refl

first_kept : (e : SendError) (es : List (Option SendError)) → first_of_all (some e) es ≡ some e
first_kept e [] = refl
first_kept e (none ∷ es) = first_kept e es
first_kept e (some x ∷ es) = first_kept e es

summary_lem :
    (es : List (Option SendError))
    → (if successes_in es == 0 then first_of_all none es else none) ≡ summary es
summary_lem [] = refl
summary_lem (none ∷ es) = ground arith
summary_lem (some e ∷ []) = refl
summary_lem (some e ∷ none ∷ es) = ground arith
summary_lem (some e ∷ some x ∷ es) =
    ground (arith, summary_lem (some x ∷ es), first_kept e es, first_kept x es)

module _ {S : Type 0} (t : Transport S) where
  -- `n` sends of the same packet, one after another: their outcomes and the state behind them.
  abbrev pub attempts : ℕ → Bytes → S → List (Option SendError) × S
  attempts zero bytes s = ([], s)
  attempts (suc n) bytes s =
      let (e, s') = t.send bytes s in let (es, s'') = attempts n bytes s' in (e ∷ es, s'')

  send_loop-attempts :
      (n : ℕ) (bytes : Bytes) (first : Option SendError) (k : ℕ) (s : S)
      → send_loop t n bytes first k s ≡ (
        first_of_all first (attempts n bytes s).0,
        k + successes_in (attempts n bytes s).0,
        (attempts n bytes s).1,
      )
  unfolding send_loop
  send_loop-attempts zero bytes first k s = ground arith
  send_loop-attempts (suc n) bytes first k s =
      let (e, s') = t.send bytes s in
      send_loop-attempts n bytes (note_error first e) (count_send k e) s'
      ∙ ap
          (λ (m : ℕ).
            (first_of_all (note_error first e) (attempts n bytes s').0, m, (attempts n bytes s').1))
          (count_sum k e (attempts n bytes s').0)

  send_retried-attempts :
      (bytes : Bytes) (c : Client S)
      → send_retried t bytes c ≡ (
        summary (attempts (send_attempts c.retries) bytes c.transport).0,
        record c { transport = (attempts (send_attempts c.retries) bytes c.transport).1 },
      )
  unfolding send_retried
  send_retried-attempts bytes c =
      rw (send_loop-attempts (send_attempts c.retries) bytes none 0 c.transport)
        (ground (arith, summary_lem (attempts (send_attempts c.retries) bytes c.transport).0))

  -- Below the largest `int`, `sendRetried` makes `retries + 1` attempts with the same packet, fails
  -- with the first error if all of them fail, succeeds otherwise, and changes nothing of the client
  -- but the transport. With the largest `int` as the number of retries it sends nothing, succeeds, and
  -- changes nothing.
  pub send_retried_lem :
      (bytes : Bytes) (c : Client S)
      → send_retried t bytes c ≡ (
          if ltb c.retries max_int
          then (
            summary (attempts (c.retries + 1) bytes c.transport).0,
            record c { transport = (attempts (c.retries + 1) bytes c.transport).1 },
          )
          else (none, c))
  unfolding send_attempts
  send_retried_lem bytes c = elim (Bool-cases (ltb c.retries max_int)) [
    | inl below ↦ send_retried-attempts bytes c ∙ rw (below, send_attempts) refl
    | inr top ↦ send_retried-attempts bytes c ∙ rw (top, send_attempts) refl
  ]

module _ {S : Type 0} (t : Transport S) where
  -- Without retries, one send that succeeds is all.
  pub send_retried_once :
      (bytes : Bytes) (c : Client S) (s : S)
      → c.retries ≡ 0
      → t.send bytes c.transport ≡ (none, s)
      → send_retried t bytes c ≡ (none, record c { transport = s })
  unfolding send_retried
  send_retried_once bytes c s once h = rw (once, h) refl
