-- ===== src/Matches/Stories.antt =====
-- The stories of the digest: `collectStories` of src/lib/digest.ts. `instant` is
-- `new Date(published).getTime()`, with `none` for NaN.
pub mod Collected
use score_arc.Prelude.{
  ℕ, ℤ, pos, negsuc, ◌-ℤ◌, String, Bool, Option, none, some, List, [], ◌∷◌, ◌++◌, map, flat_map,
  has, take, if◌then◌else◌, eqb_ℤ,
}
use score_arc.Prelude.Sort.{Comparator, Collation, sort}

pub record NewsArticle : Type 0 where
  pub id : String
  pub headline : String
  pub description : String
  pub published : String
  pub image : Option String
  pub url : String
  pub byline : String

-- The two loops, and the set of ids seen.
unfoldable pub first_articles : List String → List NewsArticle → List NewsArticle
first_articles seen [] = []
first_articles seen (a ∷ articles) =
    let kept = a ∷ first_articles (a.id ∷ seen) articles in
    let skipped = first_articles seen articles in if has a.id seen then skipped else kept

-- The sign of `at(b) - at(a)`, where NaN is minus infinity.
abbrev pub newer : Option ℤ → Option ℤ → ℤ
newer (some a) (some b) = b -ℤ a
newer (some a) none = negsuc 0
newer none (some b) = pos 1
newer none none = pos 0

module _ (instant : String → Option ℤ) (locale : Collation) where
  unfoldable pub compare_articles : Comparator NewsArticle
  compare_articles a b =
      let times = newer (instant a.published) (instant b.published) in
      if eqb_ℤ times (pos 0) then locale.compare_text a.id b.id else times

  unfoldable pub collect_stories : List (List NewsArticle) → ℕ → ℕ → List NewsArticle
  unfolding first_articles compare_articles
  collect_stories per_competition per_feed limit =
      take limit
        (sort compare_articles (first_articles [] (flat_map (take per_feed) per_competition)))
