-- ===== src/Model/Registry/Resolved.antt =====
-- What the lookups of the registry resolve to.
use text.Mathlib.TextEquality.{eq_iff}
use score_arc.Prelude.{
  none_ne, String, Option, none, some, List, [], ◌∷◌, ◌≡◌, refl, sym, ◌∙◌, subst, str_eq,
  Bool-cases, inl, inr, some_inj, All,
}
use score_arc.Model.Registry.{
  Season, Competition, CompetitionSeason, own, Registry, get_competition, season_id_or, with_season,
  in_competition, resolve_season,
}

-- A competition stands under its id, its seasons under theirs, and its current one is among them.
pub record IsFiled (entry : String × Competition) : Type 0 where
  pub by_id : entry.1.id ≡ entry.0
  pub seasons_by_id : All (λ s. s.1.id ≡ s.0) entry.1.seasons
  pub current : Season
  pub has_current : own entry.1.current_season_id entry.1.seasons ≡ some current

own-All :
    {A : Type 0} (P : String × A → Type 0) (key : String) (entries : List (String × A))
    → All P entries
    → {a : A} → own key entries ≡ some a
    → P (key, a)
own-All P key [] h e = cc
own-All P key (entry ∷ entries) h {a} e = elim (Bool-cases (str_eq entry.0 key)) [
  | inl t ↦
      subst (λ k. P (k, a)) ((eq_iff entry.0 key).0 t)
        (subst (λ x. P (entry.0, x)) (some_inj (sym (rw t) ∙ e)) h.0)
  | inr t ↦ own-All P key entries h.1 (rw t at e)
]

-- The outcome for a competition that is listed or not.
abbrev pub Resolves : Option String → Option Competition → Option CompetitionSeason → Type 0
Resolves season_id none none = Unit
Resolves none (some c) (some r) = (r.competition ≡ c) × (r.season.id ≡ c.current_season_id)
Resolves (some id) (some c) (some r) = (r.competition ≡ c) × (r.season.id ≡ id)
Resolves (some id) (some c) none = own id c.seasons ≡ none
Resolves _ _ _ = ⊥

with_season-Resolves :
    (season_id : Option String) (comp_id : String) (c : Competition) (o : Option Season)
    → IsFiled (comp_id, c)
    → own (season_id_or c season_id) c.seasons ≡ o
    → Resolves season_id (some c) (with_season c o)
with_season-Resolves none comp_id c none f e = none_ne (sym e ∙ f.has_current)
with_season-Resolves (some id) comp_id c none f e = e
with_season-Resolves none comp_id c (some season) f e =
    (refl, own-All (λ s. s.1.id ≡ s.0) c.current_season_id c.seasons f.seasons_by_id e)
with_season-Resolves (some id) comp_id c (some season) f e =
    (refl, own-All (λ s. s.1.id ≡ s.0) id c.seasons f.seasons_by_id e)

-- In a registry that files every competition and season under its id, with the current season among
-- them, a listed competition without a season id always resolves, to its current season; with one
-- it resolves to that season, or to nothing exactly when the competition does not have it.
resolve_season-Resolves :
    (registry : Registry) (comp_id : String) (season_id : Option String)
    → All IsFiled registry
    → Resolves season_id
        (get_competition registry comp_id)
        (resolve_season registry comp_id season_id)
unfolding resolve_season
resolve_season-Resolves registry comp_id season_id filed = go (own comp_id registry) refl
  where
    go :
        (o : Option Competition)
        → own comp_id registry ≡ o
        → Resolves season_id o (in_competition season_id o)
    go none e = nothing season_id
      where
        nothing : (season_id : Option String) → Resolves season_id none none
        nothing season_id = tt
    go (some c) e =
        with_season-Resolves season_id comp_id c (own (season_id_or c season_id) c.seasons)
          (own-All IsFiled comp_id registry filed e) refl
