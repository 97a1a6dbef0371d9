-- ===== src/Reachability/Tests.antt =====
-- Runs of the reachability rules.
use watesly.Base.{◌≡◌, none, [], ◌∷◌, length}
use watesly.Fixtures.{sample, plain_text}
use watesly.Reachability.{summarize_reachability}
use watesly.Reachability.Laws.{
  Counts, asked, by_status, by_warmth, summarize_reachability-partition,
}

summarize_reachability-partition_example :
    Counts plain_text
      (λ _. none)
      (asked sample 1 (11 ∷ 12 ∷ []))
      (summarize_reachability plain_text sample 1 (11 ∷ 12 ∷ []) (λ _. none))
    × (by_status (summarize_reachability plain_text sample 1 (11 ∷ 12 ∷ []) (λ _. none))
        ≡ length (asked sample 1 (11 ∷ 12 ∷ [])))
    × (by_warmth (summarize_reachability plain_text sample 1 (11 ∷ 12 ∷ []) (λ _. none))
        ≡ by_status (summarize_reachability plain_text sample 1 (11 ∷ 12 ∷ []) (λ _. none)))
summarize_reachability-partition_example =
    summarize_reachability-partition plain_text sample 1 (11 ∷ 12 ∷ []) (λ _. none)
