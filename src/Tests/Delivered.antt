-- ===== src/Tests/Delivered.antt =====
-- An onboarding that is delivered twice, and an event that is published at the third attempt.
use dalikamata.Prelude.{
  ℕ, zero, suc, ◌<◌, ◌≡◌, refl, arith, Option, none, some, [], ◌∷◌, String, ok, err,
}
use dalikamata.Prelude.Dict.{lookup}
use dalikamata.Repo.Memory.{MemoryRepository, new_memory}
use dalikamata.Service.{platform_service}
use dalikamata.Nats.EventPort.{EventCodec, Verdict, subject_platform_repo, platform_repo_handler}
use dalikamata.Nats.Redelivery.{SameContents, memory_port, redelivered}
use dalikamata.Nats.Publish.{PublishError, IsRefused, publish, publish_lem}
use dalikamata.Tests.World.{numbers}

abbrev codec : EventCodec String String
codec = record {
  repo = λ body. err "no repo";
  commit = λ body. err "no commit";
  pull_request = λ body. err "no pull request";
  workflow = λ body. err "no workflow";
  workflow_run = λ body. err "no run";
  workflow_task = λ body. err "no task";
  team = λ body. ok (record { name = body });
  component = λ body. ok (record { name = body; team_name = "red"; repo_ids = "p/api" ∷ [] });
  repo_onboarding = λ body. ok (record { repo_id = body; component = "shop"; team = "red" });
}

abbrev handle : String → MemoryRepository → MemoryRepository × Verdict
handle = platform_repo_handler codec (memory_port codec) platform_service

redelivered_example :
    SameContents (handle "p/web" (handle "p/web" new_memory).0).0 (handle "p/web" new_memory).0
    × ((handle "p/web" (handle "p/web" new_memory).0).1 ≡ (handle "p/web" new_memory).1)
unfolding lookup
redelivered_example = redelivered codec subject_platform_repo handle "p/web" new_memory refl

-- The stream answers from the third attempt on.
abbrev send_late : String → ℕ → Option (PublishError String)
send_late body zero = some PublishError.no_responders
send_late body (suc zero) = some (PublishError.api_error 404)
send_late body (suc (suc n)) = none

abbrev live : ℕ → Option String
live k = none

early : (i : ℕ) → i < 2 → IsRefused send_late live (send_late "x" i) × (live i ≡ none)
early zero h = (refl, refl)
early (suc zero) h = (refl, refl)
early (suc (suc i)) h = absurd (omega arith)

publish_example : publish send_late live (λ (s : String). ok s) 3 "x" ≡ some (ok tt)
publish_example =
    publish_lem send_late live (λ (s : String). ok s) "x" "x" 2 3 refl early tt (omega arith)
