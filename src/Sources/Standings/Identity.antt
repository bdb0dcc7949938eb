-- ===== src/Sources/Standings/Identity.antt =====
-- The reading of a payload: which tables are refused for a missing identity.
use score_arc.Prelude.{
  is_nil, ℕ, suc, String, Bool, true, false, not, ◌&&◌, List, [], ◌∷◌, map, All, All-imp,
  if◌then◌else◌, str_eq, has, ◌≡◌, ◌≢◌, refl, sym, ap, subst, arith, eq_iff, IsDistinct,
}
use score_arc.Sources.TableOrder.{RawEntry, RawTable, in_table_order}
use score_arc.Sources.Standings.{
  MapError, Result, failed, read, and_then, ReadTable, id_text, has_identity, row_of, read_row,
  read_rows, named_or, read_table, read_tables,
}

-- A result decides a condition, and has one value when it holds.
abbrev pub Decides : {A : Type 0} → Type 0 → A → Result A → Type 0
Decides P v (failed e) = ¬ P
Decides P v (read a) = P × (a ≡ v)

and_then-Decides :
    {A B : Type 0} {P Q R : Type 0} (v : A) (w : B) (r : Result A) (f : A → Result B)
    → (R → P × Q)
    → (P → Q → R)
    → Decides P v r
    → (P → Decides Q w (f v))
    → Decides R w (and_then r f)
and_then-Decides v w (failed e) f split join h k = λ r. h (split r).0
and_then-Decides {P = P} {Q = Q} {R = R} v w (read a) f split join h k =
    go (f a) (subst (λ x. Decides Q w (f x)) (sym h.1) (k h.0))
  where
    go : (q : Result _) → Decides Q w q → Decides R w q
    go (failed e) d = λ r. d (split r).1
    go (read b) d = (join h.0 d.0, d.1)

-- A guard that fails as the condition is false.
guard-Decides :
    {A : Type 0} {R : Type 0} (w : A) (b : Bool) (e : MapError) (r : Result A)
    → (R → b ≡ false)
    → (b ≡ false → Decides R w r)
    → Decides R w (if b then failed e else r)
guard-Decides w true e r h k = λ q. absurd (true_ne (h q))
  where
    true_ne : true ≡ false → ⊥
    true_ne e = cc
guard-Decides w false e r h k = k refl

-- Members that hold a property, with distinct keys that none of the seen has.
module _ {A : Type 0} (key : A → String) (P : A → Type 0) where
  pub record IsFresh (seen : List String) (xs : List A) : Type 0 where
    pub each : All P xs
    pub distinct : IsDistinct key xs
    pub unseen : All (λ x. has (key x) seen ≡ false) xs

  IsFresh-head :
      (seen : List String) (x : A) (xs : List A)
      → IsFresh seen (x ∷ xs)
      → P x × (has (key x) seen ≡ false)
  IsFresh-head seen x xs f = (f.each.0, f.unseen.0)

  IsFresh-tail :
      (seen : List String) (x : A) (xs : List A) → IsFresh seen (x ∷ xs) → IsFresh (key x ∷ seen) xs
  IsFresh-tail seen x xs f = record {
    each = f.each.1;
    distinct = f.distinct.1;
    unseen = both xs f.distinct.0 f.unseen.1;
  }
    where
      both :
          (ys : List A)
          → All (λ y. key x ≢ key y) ys
          → All (λ y. has (key y) seen ≡ false) ys
          → All (λ y. has (key y) (key x ∷ seen) ≡ false) ys
      both [] d u = tt
      both (y ∷ ys) d u = (rw u.0 (ground (arith, eq_iff (key x) (key y), d.0)), both ys d.1 u.1)

  IsFresh-join :
      (seen : List String) (x : A) (xs : List A)
      → P x
      → has (key x) seen ≡ false
      → IsFresh (key x ∷ seen) xs
      → IsFresh seen (x ∷ xs)
  IsFresh-join seen x xs p u f = record {
    each = (p, f.each);
    distinct = (All-imp (λ y h. other y h) xs f.unseen, f.distinct);
    unseen = (u, All-imp (λ y h. ground arith) xs f.unseen);
  }
    where
      other : (y : A) → has (key y) (key x ∷ seen) ≡ false → key x ≢ key y
      other y h = ground (arith, eq_iff (key x) (key y))

abbrev pub IsNamed : RawEntry → Type 0
IsNamed e = has_identity e ≡ true

-- The rows of a table: each with an identity, no team twice.
abbrev pub IsRoster : List String → List RawEntry → Type 0
IsRoster = IsFresh (λ e. id_text e.team_id) IsNamed

read_row-Decides :
    (name : String) (i : ℕ) (ids : List String) (e : RawEntry)
    → Decides (IsNamed e × (has (id_text e.team_id) ids ≡ false)) (row_of e) (read_row name i ids e)
read_row-Decides name i ids e =
    guard-Decides _ (not (has_identity e)) _ _ (λ r. ap not r.0)
      (λ named.
        guard-Decides _ (has (id_text e.team_id) ids) _ _ (λ r. r.1)
          (λ unseen. ((ground arith, unseen), refl)))

read_rows-Decides :
    (name : String) (i : ℕ) (ids : List String) (es : List RawEntry)
    → Decides (IsRoster ids es) (map row_of es) (read_rows name i ids es)
unfolding read_rows
read_rows-Decides name i ids [] = (record { each = tt; distinct = tt; unseen = tt }, refl)
read_rows-Decides name i ids (e ∷ es) =
    and_then-Decides _ _ (read_row name i ids e) _
      (λ f. (IsFresh-head _ _ ids e es f, IsFresh-tail _ _ ids e es f))
      (λ p q. IsFresh-join _ _ ids e es p.0 p.1 q) (read_row-Decides name i ids e)
      (λ p.
        and_then-Decides _ _ (read_rows name (suc i) (id_text e.team_id ∷ ids) es) _ (λ f. (f, tt))
          (λ q u. q) (read_rows-Decides name (suc i) (id_text e.team_id ∷ ids) es)
          (λ q. (tt, refl)))

-- A table that has teams, an id of its own among several, and a roster.
pub record IsIdentified (several : Bool) (t : RawTable) : Type 0 where
  pub teams : is_nil t.entries ≡ false
  pub filed : (str_eq (id_text t.id) "" && several) ≡ false
  pub roster : IsRoster [] (in_table_order t.entries)

abbrev pub table_of : String → RawTable → ReadTable
table_of unnamed t = record {
  name = named_or unnamed t.name;
  rows = map row_of (in_table_order t.entries);
}

abbrev table_key : RawTable → String
table_key t = id_text t.id

abbrev pub IsIdentity : Bool → List String → List RawTable → Type 0
IsIdentity several = IsFresh table_key (IsIdentified several)

read_table-Decides :
    (unnamed : String) (several : Bool) (ids : List String) (t : RawTable)
    → Decides
        (IsIdentified several t × (has (table_key t) ids ≡ false))
        (table_of unnamed t)
        (read_table unnamed several ids t)
unfolding read_table
read_table-Decides unnamed several ids t =
    guard-Decides _ (is_nil t.entries) _ _ (λ r. r.0.teams)
      (λ teams.
        guard-Decides _ (str_eq (id_text t.id) "" && several) _ _ (λ r. r.0.filed)
          (λ filed.
            guard-Decides _ (has (id_text t.id) ids) _ _ (λ r. r.1)
              (λ unseen.
                and_then-Decides _ _
                  (read_rows (named_or unnamed t.name) 0 [] (in_table_order t.entries)) _
                  (λ r. (r.0.roster, tt))
                  (λ q u. (record { teams = teams; filed = filed; roster = q }, unseen))
                  (read_rows-Decides (named_or unnamed t.name) 0 [] (in_table_order t.entries))
                  (λ q. (tt, refl)))))

pub read_tables-Decides :
    (unnamed : String) (several : Bool) (ids : List String) (ts : List RawTable)
    → Decides
        (IsIdentity several ids ts)
        (map (table_of unnamed) ts)
        (read_tables unnamed several ids ts)
unfolding read_tables
read_tables-Decides unnamed several ids [] =
    (record { each = tt; distinct = tt; unseen = tt }, refl)
read_tables-Decides unnamed several ids (t ∷ ts) =
    and_then-Decides _ _ (read_table unnamed several ids t) _
      (λ f. (IsFresh-head _ _ ids t ts f, IsFresh-tail _ _ ids t ts f))
      (λ p q. IsFresh-join _ _ ids t ts p.0 p.1 q) (read_table-Decides unnamed several ids t)
      (λ p.
        and_then-Decides _ _ (read_tables unnamed several (id_text t.id ∷ ids) ts) _ (λ f. (f, tt))
          (λ q u. q) (read_tables-Decides unnamed several (id_text t.id ∷ ids) ts)
          (λ q. (tt, refl)))
