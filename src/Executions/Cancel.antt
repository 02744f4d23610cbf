-- ===== src/Executions/Cancel.antt =====
-- Which executions `CancelExecution` of services/impl/execution_service_impl.go cancels.
use tas_agent_builder.Base.{
  ℕ, zero, suc, ◌==◌, ==_iff, ◌≡◌, ◌⊎◌, ◌↔◌, refl, sym, ap, ◌∙◌, Bool-cases, true, false, inl, inr,
  List, [], ◌∷◌, ℤ, length, Result-cases, ok, Among, filter-suc, filter-Among, update_where-zero,
  update_where-changed, arith,
}
use tas_agent_builder.External.Database.{Table}
use tas_agent_builder.Models.Execution.{
  ExecutionStatus, queued, running, completed, failed, timeout, cancelled, other_status,
  AgentExecution,
}
use tas_agent_builder.Agents.Access.{and_left, and_right, and_true}
use tas_agent_builder.Executions.Service.{
  with_cancellation, is_live, is_cancellable, cancel_execution,
}
use tas_agent_builder.Executions.Status.{status_of, status_of-Among, status_of-update_other}
use tas_agent_builder.Executions.Lifecycle.{cancel, is_ok, next_status, apart, only}

is_live-cases : (s : ExecutionStatus) → is_live s ≡ true → (s ≡ queued) ⊎ (s ≡ running)
unfolding is_live
is_live-cases queued h = inl refl
is_live-cases running h = inr refl
is_live-cases completed h = cc
is_live-cases failed h = cc
is_live-cases timeout h = cc
is_live-cases cancelled h = cc
is_live-cases (other_status t) h = cc

-- A stored execution of the user that has not ended.
pub record CanCancel (id user_id : ℕ) (rows : List AgentExecution) (e : AgentExecution)
    : Type 0 where
  pub there : Among e rows
  pub same_id : e.id ≡ id
  pub own : e.user_id ≡ user_id
  pub live : (e.status ≡ queued) ⊎ (e.status ≡ running)

CanCancel-of :
    (id user_id : ℕ) (rows : List AgentExecution) (e : AgentExecution)
    → Among e rows
    → is_cancellable id user_id e ≡ true
    → CanCancel id user_id rows e
unfolding is_cancellable
CanCancel-of id user_id rows e m h =
    let rest = and_right _ _ h in
    record {
      there = m;
      same_id = (==_iff e.id id).0 (and_left _ _ h);
      own = (==_iff e.user_id user_id).0 (and_left _ _ rest);
      live = is_live-cases e.status (and_right _ _ rest);
    }

is_cancellable-of :
    (id user_id : ℕ) (rows : List AgentExecution) (e : AgentExecution)
    → CanCancel id user_id rows e
    → is_cancellable id user_id e ≡ true
unfolding is_cancellable is_live
is_cancellable-of id user_id rows e c =
    let live : is_live e.status ≡ true = elim c.live [
      | inl q ↦ ap is_live q
      | inr r ↦ ap is_live r
    ] in
    and_true ((==_iff e.id id).1 c.same_id) (and_true ((==_iff e.user_id user_id).1 c.own) live)

not_taken :
    (id user_id : ℕ) (e : AgentExecution)
    → (e.id == id) ≡ false
    → is_cancellable id user_id e ≡ false
unfolding is_cancellable
not_taken id user_id e h = rw (h) refl

no_member : (e : AgentExecution) (l : List AgentExecution) → 0 ≡ length l → Among e l → ⊥
no_member e [] h m = m
no_member e (x ∷ l) h m = omega (arith, h)

module _ (executions : Table AgentExecution) (s : executions.Store) where
  -- When the database makes the update, `CancelExecution` reports success exactly if the user has
  -- a stored execution with the id that is queued or running.
  pub cancel_execution_iff :
      (now : ℤ) (id user_id n : ℕ)
      → (executions.update s (is_cancellable id user_id) (with_cancellation now)).1 ≡ ok n
      → (is_ok (cancel_execution executions s now id user_id).1 ≡ true)
        ↔ ((e : AgentExecution) × CanCancel id user_id (executions.rows s) e)
  unfolding cancel_execution
  cancel_execution_iff now id user_id zero done = (
    λ h. cc (rw (done, cancel_execution) at h),
    λ c.
        let (rows, none_taken) = executions.update-done s _ (with_cancellation now) zero done in
        let taken =
          filter-Among (is_cancellable id user_id) c.0 (executions.rows s) c.1.there
            (is_cancellable-of id user_id (executions.rows s) c.0 c.1) in
        absurd (no_member c.0 _ none_taken taken),
  )
  cancel_execution_iff now id user_id (suc n) done = (
    λ h.
        let (rows, taken) = executions.update-done s _ (with_cancellation now) (suc n) done in
        let (e, there, holds) =
          filter-suc (is_cancellable id user_id) n (executions.rows s) taken in
        (e, CanCancel-of id user_id (executions.rows s) e there holds),
    λ c. rw (done, cancel_execution) refl,
  )

  module _ (keyed : (e : AgentExecution) → executions.key e ≡ e.id) where
    pub cancel-refines :
        (k : ℕ) (now : ℤ) (id user_id : ℕ)
        → let (t, r) = cancel_execution executions s now id user_id in
          status_of k (executions.rows t)
          ≡ next_status k (cancel now id user_id) (is_ok r) (status_of k (executions.rows s))
    unfolding cancel_execution next_status with_cancellation
    cancel-refines k now id user_id =
        let p = is_cancellable id user_id in
        let f = with_cancellation now in
        let t = (executions.update s p f).0 in
        elim (Result-cases (executions.update s p f).1) [
          | inl (zero, done) ↦
              let (rows, none_taken) = executions.update-done s p f zero done in
              rw (done, cancel_execution)
                (ap (status_of k) (rows ∙ update_where-zero p f (executions.rows s) none_taken))
          | inl (suc n, done) ↦
              let (rows, taken) = executions.update-done s p f (suc n) done in
              let (e, there, holds) = filter-suc p n (executions.rows s) taken in
              let c = CanCancel-of id user_id (executions.rows s) e there holds in
              rw (done, cancel_execution)
                (elim (Bool-cases (id == k)) [
                  | inl same ↦
                      let changed : Among (f e) (executions.rows t) =
                        rw (rows) (update_where-changed p f e (executions.rows s) there holds) in
                      rw (same, sym (c.same_id ∙ (==_iff id k).0 same))
                        (status_of-Among (f e) (executions.rows t) changed
                          (only executions keyed t (f e) changed))
                  | inr other ↦
                      rw (other, rows)
                        (status_of-update_other p f k (executions.rows s) (λ b. refl)
                          (λ b h. not_taken id user_id b (apart id k b.id other h)))
                ])
          | inr (inl (x, failure)) ↦
              rw (failure, cancel_execution)
                (ap (status_of k) (executions.update-failed s p f x failure))
          | inr (inr died) ↦
              rw (died, cancel_execution) (ap (status_of k) (executions.update-panic s p f died))
        ]
