-- ===== src/Matches/Form/Members.antt =====
-- The memberships of the teams, and the matches that the forms use.
use score_arc.Prelude.{
  String, Bool, true, false, not, ◌||◌, List, [], ◌∷◌, ◌++◌, map, All, All-imp, ◌==◌, str_eq, has,
  ◌≡◌, ◌≢◌, ◌⊎◌, refl, sym, ap, ◌∙◌, subst, arith, eq_iff, Bool-cases, inl, inr, if_cases,
  IsDistinct, str_eq_self,
}
use score_arc.Model.{Match, Group, Standing}
use score_arc.Matches.Performance.{PerformanceMatch}
use score_arc.Matches.Form.Reading.{Member, add_group, join, join_rows, members_from, members_of}
use score_arc.Matches.Form.{TeamForm}
use score_arc.Matches.Form.Teams.{use_match, use_matches, Forms, add_form, forms_from, team_form}

-- A row of a table has a member, with its count of matches unless the tables disagree.
abbrev pub IsRowOf : Standing → Member → Type 0
IsRowOf s m = (m.team_id ≡ s.team.id) × (m.ambiguous ≡ false → m.played ≡ s.played)

abbrev pub HasMember : Standing → List Member → Type 0
HasMember s [] = ⊥
HasMember s (m ∷ members) = IsRowOf s m ⊎ HasMember s members

module _ (same_group : Bool) (group_id : String) (s : Standing) where
  join-HasMember : (members : List Member) → HasMember s (join same_group group_id s members)
  join-HasMember [] = inl (refl, λ h. refl)
  join-HasMember (m ∷ members) =
      if_cases (HasMember s) (str_eq m.team_id s.team.id) _ _
        (λ t. inl ((eq_iff m.team_id s.team.id).0 t, λ h. ground arith))
        (λ t. inr (join-HasMember members))

  join-keeps :
      (t : Standing) (members : List Member)
      → HasMember t members
      → HasMember t (join same_group group_id s members)
  join-keeps t [] h = absurd h
  join-keeps t (m ∷ members) h =
      if_cases (HasMember t) (str_eq m.team_id s.team.id) _ _ (λ e. at_match h)
        (λ e. after (join-keeps t members) h)
    where
      at_match :
          IsRowOf t m ⊎ HasMember t members
          → IsRowOf t (record m {
            group_ids = add_group group_id m.group_ids;
            ambiguous = m.ambiguous || not (m.played == s.played) || same_group;
          })
            ⊎ HasMember t members
      at_match (inl here) = inl (here.0, λ a. here.1 (ground arith))
      at_match (inr there) = inr there

      after :
          (HasMember t members → HasMember t (join same_group group_id s members))
          → IsRowOf t m ⊎ HasMember t members
          → IsRowOf t m ⊎ HasMember t (join same_group group_id s members)
      after ih (inl here) = inl here
      after ih (inr there) = inr (ih there)

  join-All :
      (k : String) (members : List Member)
      → k ≢ s.team.id
      → All (λ m. k ≢ m.team_id) members
      → All (λ m. k ≢ m.team_id) (join same_group group_id s members)
  join-All k [] n h = (n, tt)
  join-All k (m ∷ members) n h =
      if_cases (All (λ m. k ≢ m.team_id)) (str_eq m.team_id s.team.id) _ _ (λ t. (h.0, h.1))
        (λ t. (h.0, join-All k members n h.1))

  join-IsDistinct :
      (members : List Member)
      → IsDistinct (λ m. m.team_id) members
      → IsDistinct (λ m. m.team_id) (join same_group group_id s members)
  join-IsDistinct [] d = (tt, tt)
  join-IsDistinct (m ∷ members) d =
      if_cases (IsDistinct (λ m. m.team_id)) (str_eq m.team_id s.team.id) _ _ (λ t. (d.0, d.1))
        (λ t. (
          join-All m.team_id members (ground (arith, eq_iff m.team_id s.team.id)) d.0,
          join-IsDistinct members d.1,
        ))

-- Members of distinct teams, one for each row that was read.
pub record IsMembership (rows : Standing → Type 0) (members : List Member) : Type 0 where
  pub distinct : IsDistinct (λ m. m.team_id) members
  pub each : (s : Standing) → rows s → HasMember s members

abbrev IsRowIn : List Standing → Standing → Type 0
IsRowIn [] s = ⊥
IsRowIn (x ∷ rows) s = (x ≡ s) ⊎ IsRowIn rows s

abbrev pub IsInTables : List Group → Standing → Type 0
IsInTables [] s = ⊥
IsInTables (g ∷ groups) s = IsRowIn g.standings s ⊎ IsInTables groups s

join_rows-IsMembership :
    (same_group : Bool) (group_id : String) (rows : List Standing) (P : Standing → Type 0)
    (members : List Member)
    → IsMembership P members
    → IsMembership (λ s. P s ⊎ IsRowIn rows s) (join_rows same_group group_id rows members)
join_rows-IsMembership b g [] P members m = record { distinct = m.distinct; each = by_side }
  where
    by_side : (s : Standing) → P s ⊎ ⊥ → HasMember s members
    by_side s (inl p) = m.each s p
    by_side s (inr n) = absurd n
join_rows-IsMembership b g (x ∷ rows) P members m =
    let joined : IsMembership (λ s. P s ⊎ (x ≡ s)) (join b g x members) = record {
      distinct = join-IsDistinct b g x members m.distinct;
      each = joins;
    } in
    let ih = join_rows-IsMembership b g rows (λ s. P s ⊎ (x ≡ s)) (join b g x members) joined in
    record { distinct = ih.distinct; each = λ s h. ih.each s (regroup s h) }
  where
    joins : (s : Standing) → P s ⊎ (x ≡ s) → HasMember s (join b g x members)
    joins s (inl p) = join-keeps b g x s members (m.each s p)
    joins s (inr e) = subst (λ t. HasMember t (join b g x members)) e (join-HasMember b g x members)

    regroup : (s : Standing) → P s ⊎ IsRowIn (x ∷ rows) s → (P s ⊎ (x ≡ s)) ⊎ IsRowIn rows s
    regroup s (inl p) = inl (inl p)
    regroup s (inr (inl e)) = inl (inr e)
    regroup s (inr (inr l)) = inr l

members_from-IsMembership :
    (same_group : Bool) (groups : List Group) (P : Standing → Type 0) (members : List Member)
    → IsMembership P members
    → IsMembership (λ s. P s ⊎ IsInTables groups s) (members_from same_group groups members)
members_from-IsMembership b [] P members m = record { distinct = m.distinct; each = by_side }
  where
    by_side : (s : Standing) → P s ⊎ ⊥ → HasMember s members
    by_side s (inl p) = m.each s p
    by_side s (inr n) = absurd n
members_from-IsMembership b (g ∷ groups) P members m =
    let ih =
      members_from-IsMembership b groups (λ s. P s ⊎ IsRowIn g.standings s)
        (join_rows b g.id g.standings members)
        (join_rows-IsMembership b g.id g.standings P members m) in
    record { distinct = ih.distinct; each = λ s h. ih.each s (regroup s h) }
  where
    regroup :
        (s : Standing)
        → P s ⊎ IsInTables (g ∷ groups) s
        → (P s ⊎ IsRowIn g.standings s) ⊎ IsInTables groups s
    regroup s (inl p) = inl (inl p)
    regroup s (inr (inl r)) = inl (inr r)
    regroup s (inr (inr l)) = inr l

pub members_of-IsMembership :
    (same_group : Bool) (groups : List Group)
    → IsMembership (IsInTables groups) (members_of same_group groups)
unfolding members_of
members_of-IsMembership b groups =
    let m =
      members_from-IsMembership b groups (λ s. ⊥) []
        (record { distinct = tt; each = λ s n. absurd n }) in
    record { distinct = m.distinct; each = λ s h. m.each s (inr h) }

use_match-has :
    (k : String) (m : Match) (used : List Match)
    → has k (map (λ u. u.id) (use_match m used)) ≡ (str_eq m.id k || has k (map (λ u. u.id) used))
use_match-has k m [] = refl
use_match-has k m (u ∷ used) = elim (Bool-cases (str_eq u.id m.id)) [
  | inl t ↦ rw t (ground (arith, (eq_iff u.id m.id).0 t))
  | inr t ↦ rw t (ground (arith, use_match-has k m used))
]

use_match-IsDistinct :
    (m : Match) (used : List Match)
    → IsDistinct (λ u. u.id) used
    → IsDistinct (λ u. u.id) (use_match m used)
use_match-IsDistinct m [] d = (tt, tt)
use_match-IsDistinct m (u ∷ used) d =
    if_cases (IsDistinct (λ u. u.id)) (str_eq u.id m.id) _ _
      (λ t. (subst (λ k. All (λ x. k ≢ x.id) used) ((eq_iff u.id m.id).0 t) d.0, d.1))
      (λ t.
        (others u.id used (ground (arith, eq_iff u.id m.id)) d.0, use_match-IsDistinct m used d.1))
  where
    others :
        (k : String) (xs : List Match)
        → k ≢ m.id
        → All (λ x. k ≢ x.id) xs
        → All (λ x. k ≢ x.id) (use_match m xs)
    others k [] n h = (n, tt)
    others k (x ∷ xs) n h =
        if_cases (All (λ x. k ≢ x.id)) (str_eq x.id m.id) _ _ (λ t. (n, h.1))
          (λ t. (h.0, others k xs n h.1))

-- The matches of a form are among the used, each once.
abbrev pub IsUsedIn : List Match → List PerformanceMatch → Type 0
IsUsedIn used form = All (λ p. has p.of_match.id (map (λ u. u.id) used) ≡ true) form

abbrev Extends : List Match → List Match → Type 0
Extends used more =
    (k : String) → has k (map (λ u. u.id) used) ≡ true → has k (map (λ u. u.id) more) ≡ true

record IsUse (used : List Match) (form : List PerformanceMatch) (after : List Match) : Type 0 where
  distinct : IsDistinct (λ u. u.id) after
  kept : Extends used after
  uses : IsUsedIn after form

use_matches-IsUse :
    (form : List PerformanceMatch) (used : List Match)
    → IsDistinct (λ u. u.id) used
    → IsUse used form (use_matches form used)
use_matches-IsUse [] used d = record { distinct = d; kept = λ k h. h; uses = tt }
use_matches-IsUse (p ∷ ps) used d =
    let ih =
      use_matches-IsUse ps (use_match p.of_match used) (use_match-IsDistinct p.of_match used d) in
    record {
      distinct = ih.distinct;
      kept = λ k h. ih.kept k (rw (use_match-has k p.of_match used, h) (ground arith));
      uses = (
        ih.kept p.of_match.id
            (rw (use_match-has p.of_match.id p.of_match used, str_eq_self p.of_match.id) refl),
        ih.uses,
      );
    }

module _ (form : Member → List PerformanceMatch) where
  abbrev pub entry : Member → String × TeamForm
  entry m = (m.team_id, team_form (form m))

  pub record IsForms (before : Forms) (members : List Member) (forms : Forms) : Type 0 where
    pub teams : forms.teams ≡ before.teams ++ map entry members
    pub distinct : IsDistinct (λ u. u.id) forms.used
    pub kept : Extends before.used forms.used
    pub uses : All (λ m. IsUsedIn forms.used (form m)) members

  pub forms_from-IsForms :
      (members : List Member) (before : Forms)
      → IsDistinct (λ u. u.id) before.used
      → IsForms before members (forms_from form members before)
  unfolding forms_from
  forms_from-IsForms [] before d = record {
    teams = sym (append_nil before.teams);
    distinct = d;
    kept = λ k h. h;
    uses = tt;
  }
    where
      append_nil : {A : Type 0} (xs : List A) → xs ++ [] ≡ xs
      append_nil [] = refl
      append_nil (x ∷ xs) = ap (λ ys. x ∷ ys) (append_nil xs)
  forms_from-IsForms (m ∷ members) before d =
      let u = use_matches-IsUse (form m) before.used d in
      let ih = forms_from-IsForms members (add_form m (form m) before) u.distinct in
      record {
        teams = ih.teams ∙ append_assoc before.teams (entry m) (map entry members);
        distinct = ih.distinct;
        kept = λ k h. ih.kept k (u.kept k h);
        uses = (All-imp (λ p h. ih.kept p.of_match.id h) (form m) u.uses, ih.uses);
      }
    where
      append_assoc :
          {A : Type 0} (xs : List A) (y : A) (zs : List A) → (xs ++ (y ∷ [])) ++ zs ≡ xs ++ (y ∷ zs)
      append_assoc [] y zs = refl
      append_assoc (x ∷ xs) y zs = ap (λ ys. x ∷ ys) (append_assoc xs y zs)
