-- ===== src/Matches/Stories/Collected.antt =====
-- What the collected stories are.
use score_arc.Prelude.{ℕ, ◌≤◌, ℤ, String, Option, List, length, All, IsDistinct, IsListed}
use score_arc.Prelude.Sort.{Comparator, Collation, IsSorted}
use score_arc.Matches.Stories.{NewsArticle, newer}

-- What the stories are, of the articles that the feeds may show.
pub record IsCollected (cmp : Comparator NewsArticle) (limit : ℕ)
    (offered stories : List NewsArticle) : Type 0 where
  pub offered_once : IsDistinct (λ a. a.id) stories
  pub from_offered : All (IsListed offered) stories
  pub order : IsSorted cmp stories
  pub capped : length stories ≤ limit

module _ (instant : String → Option ℤ) (locale : Collation) where
  -- The later first, and what has no date last.
  abbrev pub by_time : Comparator NewsArticle
  by_time a b = newer (instant a.published) (instant b.published)
