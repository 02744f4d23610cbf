-- ===== src/Router/Retries.antt =====
-- The retries of `SendRequest` in services/impl/router_service_impl.go.
use tas_agent_builder.Base.{
  ℕ, zero, suc, ◌+◌, ◌*◌, ◌≤◌, ◌≡◌, refl, ◌∙◌, Bool, true, not, ◌&&◌, ◌==◌, Str, List, [], ◌∷◌, ℤ,
  pos, ok, err, panic, codes, concat, arith,
}
use tas_agent_builder.Models.Memory.{second}
use tas_agent_builder.Router.Wire.{RouterRequest}
use tas_agent_builder.Router.Send.{
  HttpPost, Attempt, no_response, responded, Client, Outside, is_retryable, handle_reply, attempts,
  send_with_retries,
}

-- The sleeps of `k` retries from the attempt number `a` on: one more second each.
abbrev pub linear : ℕ → ℕ → List ℤ
linear a zero = []
linear a (suc k) = pos ((a + 1) * second) ∷ linear (a + 1) k

-- An attempt that is repeated while one is left: no response, or a status that is retryable.
abbrev pub IsRepeated : Attempt → Type 0
IsRepeated (no_response e) = Unit
IsRepeated (responded status (ok body) took) = not (status == 200) && is_retryable status ≡ true
IsRepeated (responded status _ took) = ⊥

and-left : (a b : Bool) → a && b ≡ true → a ≡ true
and-left a b h = ground arith

module _ (client : Client) (out : Outside) where
  open client use {State}

  -- The first `k` attempts from a state on are repeated ones, and lead to the other state.
  abbrev pub Fails : ℕ → HttpPost → State → State → Type 0
  Fails zero post s t = s ≡ t
  Fails (suc k) post s t = IsRepeated (client.post s post).1 × Fails k post (client.post s post).0 t

  repeated_step :
      (left a : ℕ) (request : RouterRequest) (post : HttpPost) (s : State)
      → IsRepeated (client.post s post).1
      → attempts client out (suc left) a request post s ≡ (
        (attempts client out left (a + 1) request post (client.post s post).0).0,
        pos ((a + 1) * second)
            ∷ (attempts client out left (a + 1) request post (client.post s post).0).1,
        (attempts client out left (a + 1) request post (client.post s post).0).2,
      )
  unfolding attempts
  repeated_step left a request post s h = go (client.post s post).1 refl h
    where
      go :
          (got : Attempt)
          → (client.post s post).1 ≡ got
          → IsRepeated got
          → attempts client out (suc left) a request post s ≡ (
            (attempts client out left (a + 1) request post (client.post s post).0).0,
            pos ((a + 1) * second)
                ∷ (attempts client out left (a + 1) request post (client.post s post).0).1,
            (attempts client out left (a + 1) request post (client.post s post).0).2,
          )
      go (no_response e) g h = rw (g, attempts) refl
      go (responded status (ok body) took) g h = rw (g, attempts) (rw h refl)
      go (responded status (err e) took) g h = absurd h
      go (responded status panic took) g h = absurd h

  answered_step :
      (left a : ℕ) (request : RouterRequest) (post : HttpPost) (s : State) (body : Str) (took : ℤ)
      → (client.post s post).1 ≡ responded 200 (ok body) took
      → attempts client out left a request post s
        ≡ ((client.post s post).0, [], handle_reply out request 200 body took)
  unfolding attempts
  answered_step zero a request post s body took got = rw (got, attempts) refl
  answered_step (suc left) a request post s body took got = rw (got, attempts) refl

  attempts_lem :
      (k left a : ℕ) (request : RouterRequest) (post : HttpPost) (s t : State) (body : Str)
      (took : ℤ)
      → k ≤ left
      → Fails k post s t
      → (client.post t post).1 ≡ responded 200 (ok body) took
      → attempts client out left a request post s
        ≡ ((client.post t post).0, linear a k, handle_reply out request 200 body took)
  attempts_lem zero left a request post s t body took h e got =
      rw e (answered_step left a request post t body took got)
  attempts_lem (suc k) zero a request post s t body took h fails got = absurd (omega arith)
  attempts_lem (suc k) (suc left) a request post s t body took h (r, fails) got =
      let rest = attempts_lem k left (a + 1) request post _ t body took (omega arith) fails got in
      repeated_step left a request post s r ∙ rw rest refl

  -- If at most `MaxRetries` attempts fail in a way that is repeated and the next is answered with
  -- 200, `SendRequest` sleeps one second more before each retry and returns what that answer holds.
  pub send_with_retries-reply :
      (k max_retries : ℕ) (request : RouterRequest) (post : HttpPost) (s t : State) (body : Str)
      (took : ℤ)
      → k ≤ max_retries
      → Fails k post s t
      → (client.post t post).1 ≡ responded 200 (ok body) took
      → send_with_retries client out (pos max_retries) request post s
        ≡ ((client.post t post).0, linear 0 k, handle_reply out request 200 body took)
  unfolding send_with_retries
  send_with_retries-reply k max_retries request post s t body took h fails got =
      attempts_lem k max_retries 0 request post s t body took h fails got

  exhausted :
      (left a : ℕ) (request : RouterRequest) (post : HttpPost) (s t : State)
      → Fails (suc left) post s t
      → (e : Str) × (attempts client out left a request post s ≡ (t, linear a left, err e))
  unfolding attempts handle_reply
  exhausted zero a request post s t (r, e) = go (client.post s post).1 refl r
    where
      go :
          (got : Attempt)
          → (client.post s post).1 ≡ got
          → IsRepeated got
          → (e : Str) × (attempts client out zero a request post s ≡ (t, [], err e))
      go (no_response x) g h = (
        concat (codes "failed after " ∷ out.decimal (pos a) ∷ codes " retries: " ∷ x ∷ []),
        rw (g, attempts) (rw e refl),
      )
      go (responded status (ok body) took) g h =
          let bad : not (status == 200) ≡ true =
            and-left (not (status == 200)) (is_retryable status) h in
          (
            concat (
                codes "router returned status "
                ∷ out.decimal (pos status)
                ∷ codes ": "
                ∷ body
                ∷ []),
            rw (g, attempts) (rw e (rw bad refl)),
          )
      go (responded status (err x) took) g h = absurd h
      go (responded status panic took) g h = absurd h
  exhausted (suc left) a request post s t (r, fails) =
      let (e, rest) = exhausted left (a + 1) request post _ t fails in
      (e, repeated_step left a request post s r ∙ rw rest refl)

  -- If all of the `MaxRetries + 1` attempts fail in a way that is repeated, `SendRequest` returns an
  -- error after the last, with no sleep after it.
  pub send_with_retries-exhausted :
      (max_retries : ℕ) (request : RouterRequest) (post : HttpPost) (s t : State)
      → Fails (suc max_retries) post s t
      → (e : Str) × (send_with_retries client out (pos max_retries) request post s
          ≡ (t, linear 0 max_retries, err e))
  unfolding send_with_retries
  send_with_retries-exhausted max_retries request post s t fails =
      exhausted max_retries 0 request post s t fails
