-- ===== src/Installations/Rows.antt =====
-- What the statements on github_installation_repos do to the rows that a reader finds
-- (src/coursefuzz/security/installations.py).
use course_fuzz.Prelude.{
  ℕ, String, Bool, true, not, ◌&&◌, ◌||◌, List, [], ◌∷◌, any, filter, lookup, is_some, ltb, nat_beq,
  nat_eq, nat_beq_iff, ◌==◌, string_eq, eq_of_beq, beq_comm, if◌then◌else◌, ◌≡◌, refl, ap, ◌∙◌, inl,
  inr, Bool-cases, arith,
}
use course_fuzz.Prelude.State.{◌>>=◌}
use course_fuzz.Prelude.Result.{ok}
use course_fuzz.Installations.{
  Db, id_limit, has_row, is_row, insert_repository, delete_repository, delete_repositories,
  transaction, conclude,
}
use course_fuzz.Installations.Sqlite.{
  insert_each, delete_each, set_repositories, add_repositories, remove_repositories,
}

-- One of the names, in lower case, is the repository.
abbrev pub mentions : (lower : String → String) → List String → String → Bool
mentions lower names repository = any (λ x. lower x == repository) names

module _ (lower : String → String) where
  -- The rows after an insertion, and after a deletion, of each name.
  unfoldable pub put_rows : ℕ → List String → List (ℕ × String) → List (ℕ × String)
  put_rows i [] rows = rows
  put_rows i (r ∷ rs) rows =
      put_rows i rs (if has_row i (lower r) rows then rows else (i, lower r) ∷ rows)

  unfoldable pub drop_rows : ℕ → List String → List (ℕ × String) → List (ℕ × String)
  drop_rows i [] rows = rows
  drop_rows i (r ∷ rs) rows = drop_rows i rs (filter (λ p. not (is_row i (lower r) p)) rows)

  pub insert_each-put_rows :
      (i : ℕ) (rs : List String) (db : Db)
      → ltb i id_limit ≡ true
      → is_some (lookup i db.installations) ≡ true
      → insert_each lower i rs db ≡ (ok tt, record db { repos = put_rows i rs db.repos })
  unfolding insert_each put_rows insert_repository ◌>>=◌
  insert_each-put_rows i [] db f h = refl
  insert_each-put_rows i (r ∷ rs) db f h = elim (Bool-cases (has_row i (lower r) db.repos)) [
    | inl e ↦ rw (f, e) (insert_each-put_rows i rs db f h)
    | inr e ↦
        rw (f, e, h) (insert_each-put_rows i rs (record db { repos = (i, lower r) ∷ db.repos }) f h)
  ]

  pub delete_each-drop_rows :
      (i : ℕ) (rs : List String) (db : Db)
      → ltb i id_limit ≡ true
      → delete_each lower i rs db ≡ (ok tt, record db { repos = drop_rows i rs db.repos })
  unfolding delete_each drop_rows delete_repository ◌>>=◌
  delete_each-drop_rows i [] db f = refl
  delete_each-drop_rows i (r ∷ rs) db f = rw f (
      delete_each-drop_rows i rs
        (record db { repos = filter (λ p. not (is_row i (lower r) p)) db.repos }) f)

module _ (lower : String → String) where
  pub set_repositories-put_rows :
      (i : ℕ) (rs : List String) (db : Db)
      → ltb i id_limit ≡ true
      → is_some (lookup i db.installations) ≡ true
      → set_repositories lower i rs db ≡ (
        ok tt,
        record db { repos = put_rows lower i rs (filter (λ p. not (nat_beq p.0 i)) db.repos) },
      )
  unfolding set_repositories transaction delete_repositories ◌>>=◌
  set_repositories-put_rows i rs db f h = rw f (
      ap (conclude db) (
        insert_each-put_rows lower i rs
          (record db { repos = filter (λ p. not (nat_beq p.0 i)) db.repos }) f h))

  pub add_repositories-put_rows :
      (i : ℕ) (rs : List String) (db : Db)
      → ltb i id_limit ≡ true
      → is_some (lookup i db.installations) ≡ true
      → add_repositories lower i rs db ≡ (ok tt, record db { repos = put_rows lower i rs db.repos })
  unfolding add_repositories transaction
  add_repositories-put_rows i rs db f h = ap (conclude db) (insert_each-put_rows lower i rs db f h)

  pub remove_repositories-drop_rows :
      (i : ℕ) (rs : List String) (db : Db)
      → ltb i id_limit ≡ true
      → remove_repositories lower i rs db
        ≡ (ok tt, record db { repos = drop_rows lower i rs db.repos })
  unfolding remove_repositories transaction
  remove_repositories-drop_rows i rs db f = ap (conclude db) (delete_each-drop_rows lower i rs db f)

is_row-eq : (k : ℕ) (s : String) (p : ℕ × String) → is_row k s p ≡ true → p ≡ (k, s)
is_row-eq k s (j, x) h =
    let e : j ≡ k = ground (arith, nat_beq_iff j k) in
    let f : (x == s) ≡ true = ground arith in λ t. (e t, eq_of_beq x s f t)

pub has_row-filter :
    (k : ℕ) (s : String) (q : ℕ × String → Bool) (rows : List (ℕ × String))
    → has_row k s (filter q rows) ≡ (q (k, s) && has_row k s rows)
has_row-filter k s q [] = ground arith
has_row-filter k s q (p ∷ rows) = elim (Bool-cases (is_row k s p)) [
  | inl e ↦
      let f : q p ≡ q (k, s) = ap q (is_row-eq k s p e) in
      elim (Bool-cases (q p)) [
        | inl g ↦ rw (e, ← f, g) (rw e refl)
        | inr g ↦ rw (e, ← f, g) (has_row-filter k s q rows ∙ rw (← f, g) refl)
      ]
  | inr e ↦ elim (Bool-cases (q p)) [
    | inl g ↦ rw (e, g) (rw e (has_row-filter k s q rows))
    | inr g ↦ rw (e, g) (has_row-filter k s q rows)
  ]
]

has_row-named :
    (i k : ℕ) (t s : String) (rows : List (ℕ × String))
    → has_row i t rows ≡ true
    → nat_beq i k ≡ true
    → (t == s) ≡ true
    → has_row k s rows ≡ true
has_row-named i k t s rows h e f =
    let g : i ≡ k = (nat_beq_iff i k).0 e in rw (← g, ← eq_of_beq t s f) h

module _ (lower : String → String) where
  pub has_row-put_rows :
      (i k : ℕ) (s : String) (rs : List String) (rows : List (ℕ × String))
      → has_row k s (put_rows lower i rs rows)
        ≡ ((nat_beq i k && mentions lower rs s) || has_row k s rows)
  unfolding put_rows
  has_row-put_rows i k s [] rows = ground arith
  has_row-put_rows i k s (r ∷ rs) rows = elim (Bool-cases (has_row i (lower r) rows)) [
    | inl e ↦
        rw e (has_row-put_rows i k s rs rows ∙ ground (arith, has_row-named i k (lower r) s rows e))
    | inr e ↦ rw e (has_row-put_rows i k s rs ((i, lower r) ∷ rows) ∙ ground arith)
  ]

  pub has_row-drop_rows :
      (i k : ℕ) (s : String) (rs : List String) (rows : List (ℕ × String))
      → has_row k s (drop_rows lower i rs rows)
        ≡ (not (nat_beq i k && mentions lower rs s) && has_row k s rows)
  unfolding drop_rows
  has_row-drop_rows i k s [] rows = ground arith
  has_row-drop_rows i k s (r ∷ rs) rows =
      has_row-drop_rows i k s rs (filter (λ p. not (is_row i (lower r) p)) rows)
      ∙ ground (
        arith,
        has_row-filter k s (λ p. not (is_row i (lower r) p)) rows,
        beq_comm k i,
        beq_comm s (lower r),
      )
