-- ===== src/Nats/Publish.antt =====
-- internal/domain/nats/publish.go: the publication of an event, retried while the stream is not ready.
use dalikamata.Prelude.{
  ℕ, zero, suc, ◌+◌, ◌<◌, ◌≡◌, refl, Bool, true, false, Option, none, some, eqb, arith, Result, ok,
  err, if◌then◌else◌, subst, sym,
}

-- What errors.Is and errors.As find in the error of a publication.
pub data PublishError (E : Type 0) : Type 0 where
  no_responders : PublishError E
  no_stream_response : PublishError E
  api_error : (code : ℕ) → PublishError E
  other_error : E → PublishError E

-- How publish fails.
pub data PublishFailure (E : Type 0) : Type 0 where
  marshal_failed : E → PublishFailure E
  publish_failed : PublishError E → PublishFailure E
  context_ended : E → PublishFailure E

module _ {E : Type 0} where
  abbrev pub is_stream_not_ready : PublishError E → Bool
  is_stream_not_ready no_responders = true
  is_stream_not_ready no_stream_response = true
  is_stream_not_ready (api_error code) = eqb code 404
  is_stream_not_ready (other_error e) = false

  module _ {Data : Type 0} (send : Data → ℕ → Option (PublishError E)) (ctx : ℕ → Option E) where
    abbrev after_wait :
        Option (Result (PublishFailure E) (Unit {0}))
        → Option E
        → Option (Result (PublishFailure E) (Unit {0}))
    after_wait next (some e) = some (err (context_ended e))
    after_wait next none = next

    abbrev after_attempt :
        Option (Result (PublishFailure E) (Unit {0}))
        → Option E
        → Option (PublishError E)
        → Option (Result (PublishFailure E) (Unit {0}))
    after_attempt next ended none = some (ok tt)
    after_attempt next ended (some e) =
        if is_stream_not_ready e then after_wait next ended else some (err (publish_failed e))

    -- The k-th attempt and the ones after it: what js.Publish answers, and whether the context ends
    -- before the wait does. `none` is a loop that goes on after the fuel's attempts.
    unfoldable pub attempt : ℕ → ℕ → Data → Option (Result (PublishFailure E) (Unit {0}))
    attempt zero k body = none
    attempt (suc fuel) k body =
        let next = attempt fuel (suc k) body in after_attempt next (ctx k) (send body k)

    abbrev encoded : ℕ → Result E Data → Option (Result (PublishFailure E) (Unit {0}))
    encoded fuel (err e) = some (err (marshal_failed e))
    encoded fuel (ok body) = attempt fuel 0 body

    unfoldable pub publish :
        {A : Type 0} → (A → Result E Data) → ℕ → A → Option (Result (PublishFailure E) (Unit {0}))
    publish marshal fuel payload = encoded fuel (marshal payload)

    -- What one attempt answers when it is not retried.
    abbrev pub settled : Option (PublishError E) → Result (PublishFailure E) (Unit {0})
    settled none = ok tt
    settled (some e) = err (publish_failed e)

    abbrev pub IsRefused : Option (PublishError E) → Type 0
    IsRefused none = ⊥
    IsRefused (some e) = is_stream_not_ready e ≡ true

    -- The attempt is answered for good: the event is published or fails for another reason.
    abbrev pub IsSettled : Option (PublishError E) → Type 0
    IsSettled none = Unit
    IsSettled (some e) = is_stream_not_ready e ≡ false

    after_attempt-IsRefused :
        (next : Option (Result (PublishFailure E) (Unit {0}))) (ended : Option E)
        (answer : Option (PublishError E))
        → IsRefused answer
        → ended ≡ none
        → after_attempt next ended answer ≡ next
    after_attempt-IsRefused next ended none refused live = absurd refused
    after_attempt-IsRefused next ended (some e) refused live = rw (refused, live) refl

    after_attempt-settled :
        (next : Option (Result (PublishFailure E) (Unit {0}))) (ended : Option E)
        (answer : Option (PublishError E))
        → IsSettled answer
        → after_attempt next ended answer ≡ some (settled answer)
    after_attempt-settled next ended none final = refl
    after_attempt-settled next ended (some e) final = rw final refl

    attempt_lem :
        (n k fuel : ℕ) (body : Data)
        → ((i : ℕ) → i < n → IsRefused (send body (k + i)) × (ctx (k + i) ≡ none))
        → IsSettled (send body (k + n))
        → n < fuel
        → attempt fuel k body ≡ some (settled (send body (k + n)))
    unfolding attempt
    attempt_lem n k zero body refused final enough = absurd (omega arith)
    attempt_lem zero k (suc fuel) body refused final enough =
        let here : k + 0 ≡ k = omega arith in
        let last = subst (λ j. IsSettled (send body j)) here final in
        rw (here, after_attempt-settled (attempt fuel (suc k) body) (ctx k) (send body k) last) refl
    attempt_lem (suc n) k (suc fuel) body refused final enough =
        let here : k + 0 ≡ k = omega arith in
        let first = refused 0 (omega arith) in
        let there : k + suc n ≡ suc k + n = omega arith in
        rw
          (
            after_attempt-IsRefused (attempt fuel (suc k) body) (ctx k) (send body k)
                (subst (λ j. IsRefused (send body j)) here first.0)
                (subst (λ j. ctx j ≡ none) here first.1),
            there,
          )
          (attempt_lem n (suc k) fuel body
            (λ i below.
              let shifted : k + suc i ≡ suc k + i = omega arith in
              subst (λ j. IsRefused (send body j) × (ctx j ≡ none)) shifted
                (refused (suc i) (omega arith)))
            (subst (λ j. IsSettled (send body j)) there final) (omega arith))

    -- While the first n attempts are refused because the stream is not ready and the context lives,
    -- publish tries again; if the next attempt is not refused so, publish ends with its answer.
    pub publish_lem :
        {A : Type 0} (marshal : A → Result E Data) (payload : A) (body : Data) (n fuel : ℕ)
        → marshal payload ≡ ok body
        → ((i : ℕ) → i < n → IsRefused (send body i) × (ctx i ≡ none))
        → IsSettled (send body n)
        → n < fuel
        → publish marshal fuel payload ≡ some (settled (send body n))
    unfolding publish
    publish_lem marshal payload body n fuel reads refused final enough =
        let start : (j : ℕ) → j ≡ 0 + j = λ j. omega arith in
        rw reads (
          subst (λ j. attempt fuel 0 body ≡ some (settled (send body j))) (sym (start n))
            (attempt_lem n 0 fuel body
              (λ i below.
                subst (λ j. IsRefused (send body j) × (ctx j ≡ none)) (start i) (refused i below))
              (subst (λ j. IsSettled (send body j)) (start n) final) enough))
