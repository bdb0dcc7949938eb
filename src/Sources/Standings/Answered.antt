-- ===== src/Sources/Standings/Answered.antt =====
-- What each answer of the provider's standings says of the payload.
use score_arc.Prelude.{
  ℕ, suc, String, Bool, Option, none, some, List, [], ◌∷◌, ◌++◌, map, map_idx_from, flat_map,
  length, All, ltb, ◌≡◌, ◌≢◌, refl, sym, ap, subst, IsDistinct, IsNumbered, map_idx_from-IsNumbered,
}
use score_arc.Model.{Team, Standing, Group, named}
use score_arc.Sources.TableOrder.{RawEntry, RawTable, rank_of, number, in_table_order}
use score_arc.Sources.Standings.{
  no_children, Result, failed, read, ReadRow, ReadTable, id_text, team_of, row_of, named_or,
  read_tables, BadRow, bad_table, standing_of, group_of, Standings, mapped, rejected, without_stats,
  teams_of, measured, identified, map_standings,
}
use score_arc.Sources.TableOrder.Ordered.{IsComplete, in_table_order-IsTableOrder}
use score_arc.Sources.Standings.Identity.{
  Decides, IsIdentity, IsIdentified, table_of, read_tables-Decides,
}
use score_arc.Sources.Standings.Measured.{
  All2, HasStats, IsMeasuredBy, Refutes, standing_of-IsMeasuredBy, bad_table-Refutes,
}

-- A table of the payload and its group.
pub record IsGroupOf (unnamed : String) (t : RawTable) (g : Group) : Type 0 where
  pub title : g.title ≡ named (named_or unnamed t.name)
  pub rows : All2 IsMeasuredBy (in_table_order t.entries) g.standings
  pub numbered : IsNumbered (λ (s : Standing). s.rank) 0 g.standings
  pub distinct : IsDistinct (λ (s : Standing). s.team.id) g.standings
  pub ranked :
      IsComplete t.entries
      → All2
          (λ e (s : Standing). number (rank_of e) ≡ s.rank)
          (in_table_order t.entries)
          g.standings

rows-IsMeasuredBy :
    (i : ℕ) (es : List RawEntry)
    → All HasStats (map row_of es)
    → All2 IsMeasuredBy es (map_idx_from standing_of i (map row_of es))
rows-IsMeasuredBy i [] h = tt
rows-IsMeasuredBy i (e ∷ es) h =
    (standing_of-IsMeasuredBy i e h.0, rows-IsMeasuredBy (suc i) es h.1)

rows-ranked :
    (i : ℕ) (es : List RawEntry)
    → IsNumbered (λ e. number (rank_of e)) i es
    → All2
        (λ e (s : Standing). number (rank_of e) ≡ s.rank)
        es
        (map_idx_from standing_of i (map row_of es))
rows-ranked i [] h = tt
rows-ranked i (e ∷ es) h = (h.0, rows-ranked (suc i) es h.1)

rows-IsDistinct :
    (i : ℕ) (es : List RawEntry)
    → IsDistinct (λ e. id_text e.team_id) es
    → IsDistinct (λ (s : Standing). s.team.id) (map_idx_from standing_of i (map row_of es))
rows-IsDistinct i [] h = tt
rows-IsDistinct i (e ∷ es) h = (others (suc i) es h.0, rows-IsDistinct (suc i) es h.1)
  where
    others :
        (k : ℕ) (xs : List RawEntry)
        → All (λ x. id_text e.team_id ≢ id_text x.team_id) xs
        → All
            (λ (s : Standing). id_text e.team_id ≢ s.team.id)
            (map_idx_from standing_of k (map row_of xs))
    others k [] h = tt
    others k (x ∷ xs) h = (h.0, others (suc k) xs h.1)

groups-IsGroupOf :
    (unnamed : String) (several : Bool) (ts : List RawTable)
    → All (IsIdentified several) ts
    → All (λ t. All HasStats t.rows) (map (table_of unnamed) ts)
    → All2 (IsGroupOf unnamed) ts (map group_of (map (table_of unnamed) ts))
unfolding group_of
groups-IsGroupOf unnamed several [] i h = tt
groups-IsGroupOf unnamed several (t ∷ ts) i h = (
  record {
    title = refl;
    rows = rows-IsMeasuredBy 0 (in_table_order t.entries) h.0;
    numbered =
        map_idx_from-IsNumbered standing_of (λ s. s.rank) (λ k a. refl) 0
          (map row_of (in_table_order t.entries));
    distinct = rows-IsDistinct 0 (in_table_order t.entries) i.0.roster.distinct;
    ranked = λ c.
        rows-ranked 0 (in_table_order t.entries) ((in_table_order-IsTableOrder t.entries).ranked c);
  },
  groups-IsGroupOf unnamed several ts i.1 h.1,
)

-- The tables of a payload, by what its answer is.
abbrev IsIdentifiedPayload : List RawTable → Type 0
IsIdentifiedPayload ts = IsIdentity (ltb 1 (length ts)) [] ts

abbrev HasAllStats : String → List RawTable → Type 0
HasAllStats unnamed ts = All (λ t. All HasStats t.rows) (map (table_of unnamed) ts)

abbrev pub Explains : String → Option (List RawTable) → Standings → Type 0
Explains unnamed none answer = answer ≡ rejected no_children
Explains unnamed (some ts) (rejected e) = ¬ (IsIdentifiedPayload ts)
Explains unnamed (some ts) (without_stats bad teams) =
    IsIdentifiedPayload ts
    × ¬ (HasAllStats unnamed ts)
    × (teams ≡ flat_map (λ t. map team_of (in_table_order t.entries)) ts)
Explains unnamed (some ts) (mapped groups) =
    IsIdentifiedPayload ts × All2 (IsGroupOf unnamed) ts groups

teams_of-table_of :
    (unnamed : String) (ts : List RawTable)
    → teams_of (map (table_of unnamed) ts)
      ≡ flat_map (λ t. map team_of (in_table_order t.entries)) ts
teams_of-table_of unnamed [] = refl
teams_of-table_of unnamed (t ∷ ts) =
    ap2 (rows_teams (in_table_order t.entries)) (teams_of-table_of unnamed ts)
  where
    rows_teams :
        (es : List RawEntry) → map (λ (r : ReadRow). r.team) (map row_of es) ≡ map team_of es
    rows_teams [] = refl
    rows_teams (e ∷ es) = ap (λ xs. team_of e ∷ xs) (rows_teams es)

    ap2 : {a b c d : List Team} → a ≡ b → c ≡ d → a ++ c ≡ b ++ d
    ap2 p q = λ i. p i ++ q i

-- A payload is rejected exactly when a table or a row lacks its identity; with all identities and a
-- stat missing the answer still names every team; and otherwise each table gives one group, whose
-- rows are its entries in table order with exactly the stats they measure, numbered from 1, no team
-- twice, and where the provider's ranks are complete each row has its provider rank.
pub map_standings-Explains :
    (unnamed : String) (raw : Option (List RawTable))
    → Explains unnamed raw (map_standings unnamed raw)
unfolding map_standings
map_standings-Explains unnamed none = refl
map_standings-Explains unnamed (some ts) =
    go (read_tables unnamed (ltb 1 (length ts)) [] ts)
      (read_tables-Decides unnamed (ltb 1 (length ts)) [] ts)
  where
    measures :
        (ids : IsIdentifiedPayload ts) (o : Option BadRow)
        → Refutes (HasAllStats unnamed ts) o
        → Explains unnamed (some ts) (measured (map (table_of unnamed) ts) o)
    measures ids none h = (ids, groups-IsGroupOf unnamed (ltb 1 (length ts)) ts ids.each h)
    measures ids (some bad) h = (ids, h, teams_of-table_of unnamed ts)

    go :
        (r : Result (List ReadTable))
        → Decides (IsIdentifiedPayload ts) (map (table_of unnamed) ts) r
        → Explains unnamed (some ts) (identified r)
    go (failed e) d = d
    go (read tables) d =
        subst (λ x. Explains unnamed (some ts) (measured x (bad_table x))) (sym d.1)
          (measures d.0 (bad_table (map (table_of unnamed) ts))
            (bad_table-Refutes (map (table_of unnamed) ts)))
