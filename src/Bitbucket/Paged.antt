-- ===== src/Bitbucket/Paged.antt =====
-- internal/ingest/bitbucket/client.go: `paginate` follows the pages of an answer. A request, with its
-- response and its body decoded, is a parameter; so is the fuel, since the server decides how
-- many pages there are.
use dalikamata.Prelude.{
  ℕ, zero, suc, ◌≤◌, ◌≡◌, refl, ap, ◌∙◌, Bool, true, false, Option, none, some, List, [], ◌∷◌, ◌++◌,
  arith, length, eqb, if◌then◌else◌, Result, ok, err,
}
use mathlib.Core.List.{append-nil, append_assoc}
use dalikamata.Prelude.Int.{ℤ, pos}

pub record PagedResponse (T : Type 0) : Type 0 where
  pub values : List T
  pub is_last_page : Bool
  pub next_page_start : ℤ

pub record Response (Body : Type 0) : Type 0 where
  pub status_code : ℕ
  pub body : Body

pub data ClientError (E : Type 0) : Type 0 where
  transport : E → ClientError E
  decoding : E → ClientError E
  unexpected_status : ℕ → ClientError E

module _ {E T Body : Type 0} (send : ℤ → Result E (Response Body))
    (decode : Body → Result E (PagedResponse T)) where
  abbrev page_in : Response Body → Result (ClientError E) (PagedResponse T)
  page_in r =
      if eqb r.status_code 200
      then elim (decode r.body) [ ok p ↦ ok p | err e ↦ err (decoding e) ]
      else err (unexpected_status r.status_code)

  -- One request: send it, check the status, decode the body.
  unfoldable pub fetch_page : ℤ → Result (ClientError E) (PagedResponse T)
  fetch_page start = elim (send start) [ ok r ↦ page_in r | err e ↦ err (transport e) ]

  -- `none` is a loop that is not done when the fuel is.
  unfoldable pub paginate_from : ℕ → ℤ → List T → Option (Result (ClientError E) (List T))
  paginate_from zero start all = none
  paginate_from (suc fuel) start all = elim (fetch_page start) [
    | err e ↦ some (err e)
    | ok page ↦
        let rest = paginate_from fuel page.next_page_start (all ++ page.values) in
        if page.is_last_page then some (ok (all ++ page.values)) else rest
  ]

  unfoldable pub paginate : ℕ → Option (Result (ClientError E) (List T))
  paginate fuel = paginate_from fuel (pos 0) []

  -- The server's answer from an offset: its pages, each at the offset that the one before names,
  -- up to the last.
  abbrev pub Pages : ℤ → List (PagedResponse T) → Type 0
  Pages start [] = ⊥
  Pages start (p ∷ []) = (fetch_page start ≡ ok p) × (p.is_last_page ≡ true)
  Pages start (p ∷ q ∷ ps) =
      (fetch_page start ≡ ok p) × (p.is_last_page ≡ false) × Pages p.next_page_start (q ∷ ps)

  abbrev pub values_of : List (PagedResponse T) → List T
  values_of [] = []
  values_of (p ∷ ps) = p.values ++ values_of ps

  paginate_from-Pages :
      (fuel : ℕ) (start : ℤ) (all : List T) (ps : List (PagedResponse T))
      → Pages start ps
      → length ps ≤ fuel
      → paginate_from fuel start all ≡ some (ok (all ++ values_of ps))
  unfolding paginate_from
  paginate_from-Pages fuel start all [] h enough = absurd h
  paginate_from-Pages zero start all (p ∷ ps) h enough = absurd (omega arith)
  paginate_from-Pages (suc fuel) start all (p ∷ []) h enough =
      rw (paginate_from, h.0, h.1, append-nil p.values) refl
  paginate_from-Pages (suc fuel) start all (p ∷ q ∷ ps) h enough =
      rw (paginate_from, h.0, h.1)
        (paginate_from-Pages fuel p.next_page_start (all ++ p.values) (q ∷ ps) h.2 (omega arith)
          ∙ ap (λ l. some (ok l)) (append_assoc all p.values (values_of (q ∷ ps))))

  -- If the server's answer has an end, the client's loop does too: with as much fuel as there are
  -- pages it returns the values of all pages, in order.
  pub paginate_lem :
      (fuel : ℕ) (ps : List (PagedResponse T))
      → Pages (pos 0) ps
      → length ps ≤ fuel
      → paginate fuel ≡ some (ok (values_of ps))
  unfolding paginate
  paginate_lem fuel ps h enough = paginate_from-Pages fuel (pos 0) [] ps h enough
