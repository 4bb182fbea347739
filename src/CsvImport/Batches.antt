-- ===== src/CsvImport/Batches.antt =====
-- The loop of `runImport` in rowset-core/internal/api/csvimport.go keeps its rows: they are executed or wait.
use rowset_studio.Common.{
  ◌==◌, ◌≤◌, ◌≡◌, refl, sym, ap, subst, ◌∙◌, Bool, true, false, Option, none, some, List, [], ◌∷◌,
  ◌++◌, Bytes, codes, map, length, length-append, join, if◌then◌else◌, All, Bool-cases,
  Option-cases, inl, inr, arith,
}
use rowset_studio.Activity.Order.{append-append, append-nil}
use rowset_studio.SqlGuard.Types.{Runtime}
use rowset_studio.CsvImport.{
  ImportInput, Transactions, is_blank, without_mark, row_text, Import, flush, add_row,
}

-- The records, if each of them could be read.
unfoldable pub all_read : List (Option (List Bytes)) → Option (List (List Bytes))
all_read [] = some []
all_read (none ∷ rest) = none
all_read (some r ∷ rest) = elim (all_read rest) [ none ↦ none | some rs ↦ some (r ∷ rs) ]

unfoldable pub with_values : List (List Bytes) → List (List Bytes)
with_values [] = []
with_values (r ∷ rs) = if is_blank r then with_values rs else r ∷ with_values rs

-- The rows of a file: the byte order mark is taken off, then the header if there is one, then the
-- empty records.
unfoldable pub rows_of : Bool → List (List Bytes) → List (List Bytes)
unfolding with_values is_blank without_mark
rows_of header [] = []
rows_of true (r ∷ rs) = with_values rs
rows_of false (r ∷ rs) = with_values (without_mark r ∷ rs)

unfoldable pub concat {ℓ} : {A : Type ℓ} → List (List A) → List A
concat [] = []
concat (xs ∷ xss) = xs ++ concat xss

concat-append {ℓ} :
    {A : Type ℓ} (xss : List (List A)) (ys : List A) → concat (xss ++ (ys ∷ [])) ≡ concat xss ++ ys
unfolding concat
concat-append [] ys = append-nil ys
concat-append (xs ∷ xss) ys =
    ap (λ t. xs ++ t) (concat-append xss ys) ∙ sym (append-append xs (concat xss) ys)

map-append {ℓ κ} :
    {A : Type ℓ} {B : Type κ} (f : A → B) (xs ys : List A) → map f (xs ++ ys) ≡ map f xs ++ map f ys
map-append f [] ys = refl
map-append f (x ∷ xs) ys = ap (λ t. f x ∷ t) (map-append f xs ys)

join-append_last :
    (sep p q : Bytes) (ps : List Bytes)
    → join sep ((p ∷ ps) ++ (q ∷ [])) ≡ join sep (p ∷ ps) ++ (sep ++ q)
unfolding join
join-append_last sep p q [] = refl
join-append_last sep p q (r ∷ ps) =
    ap (λ t. p ++ (sep ++ t)) (join-append_last sep r q ps)
    ∙ sym (
        append-append p (sep ++ join sep (r ∷ ps)) (sep ++ q)
        ∙ ap (λ t. p ++ t) (append-append sep (join sep (r ∷ ps)) (sep ++ q)))

All-append_last :
    {A : Type 0} (P : A → Type 0) (xs : List A) (x : A) → All P xs → P x → All P (xs ++ (x ∷ []))
All-append_last P [] x h p = (p, tt)
All-append_last P (y ∷ xs) x h p = (h.0, All-append_last P xs x h.1 p)

pub nothing_waits {ℓ} : {A : Type ℓ} (xs : List A) → length xs ≡ 0 → xs ≡ []
nothing_waits [] h = refl
nothing_waits (x ∷ xs) h = absurd (omega (arith, h))

module _ (runtime : Runtime) (d : Transactions) (input : ImportInput) (prefix : Bytes) where
  -- An INSERT of some rows.
  unfoldable pub insert_text : List (List Bytes) → Bytes
  unfolding join row_text
  insert_text rows = prefix ++ join (codes ", ") (map (row_text runtime input) rows)

  unfoldable pub execute_all : d.Tx → List Bytes → Option d.Tx
  execute_all tx [] = some tx
  execute_all tx (s ∷ ss) = elim (d.execute tx s) [
    | none ↦ none
    | some after ↦ execute_all after ss
  ]

  execute_all-append :
      (first tx after : d.Tx) (ss : List Bytes) (s : Bytes)
      → execute_all first ss ≡ some tx
      → d.execute tx s ≡ some after
      → execute_all first (ss ++ (s ∷ [])) ≡ some after
  unfolding execute_all
  execute_all-append first tx after [] s e x = ground (arith, e, x)
  execute_all-append first tx after (t ∷ ss) s e x = elim (Option-cases (d.execute first t)) [
    | inl n ↦ absurd (ground (arith, n, e))
    | inr (mid, m) ↦ rw m (execute_all-append mid tx after ss s (ground (arith, m, e)) x)
  ]

  -- The text of the batch that waits.
  unfoldable pub batch_text : List (List Bytes) → Bytes
  batch_text [] = []
  batch_text (r ∷ rs) = insert_text (r ∷ rs)

  abbrev pub Sized : List (List Bytes) → Type 0
  Sized group = (1 ≤ length group) × (length group ≤ 500)

  -- The rows so far are those of the groups that are executed, and those of the batch.
  pub record Holds (first : d.Tx) (s : Import runtime d input prefix) (rows : List (List Bytes))
      : Type 0 where
    pub groups : List (List (List Bytes))
    pub waiting : List (List Bytes)
    pub sent : execute_all first (map insert_text groups) ≡ some s.transaction
    pub sizes : All Sized groups
    pub batch : s.batch ≡ batch_text waiting
    pub count : s.batch_rows ≡ length waiting
    pub total : s.rows ≡ length rows
    pub same : rows ≡ concat groups ++ waiting

  add_row-batch_text :
      (s : Import runtime d input prefix) (waiting : List (List Bytes)) (r : List Bytes)
      → s.batch ≡ batch_text waiting
      → s.batch_rows ≡ length waiting
      → (add_row runtime d input prefix s r).batch ≡ batch_text (waiting ++ (r ∷ []))
  unfolding add_row batch_text insert_text join
  add_row-batch_text s [] r e c = rw (c, e) refl
  add_row-batch_text s (w ∷ waiting) r e c =
      let f = row_text runtime input in
      let more : (s.batch_rows == 0) ≡ false = ground (arith, c) in
      rw (more, e)
        (append-append prefix (join (codes ", ") (map f (w ∷ waiting))) (codes ", " ++ f r)
          ∙ ap (λ t. prefix ++ t)
              (sym (join-append_last (codes ", ") (f w) (f r) (map f waiting))
                ∙ ap (join (codes ", ")) (sym (map-append f (w ∷ waiting) (r ∷ [])))))

  pub add_row-Holds :
      (first : d.Tx) (s : Import runtime d input prefix) (rows : List (List Bytes)) (r : List Bytes)
      → Holds first s rows
      → Holds first (add_row runtime d input prefix s r) (rows ++ (r ∷ []))
  unfolding add_row
  add_row-Holds first s rows r h = record {
    groups = h.groups;
    waiting = h.waiting ++ (r ∷ []);
    sent = h.sent;
    sizes = h.sizes;
    batch = add_row-batch_text s h.waiting r h.batch h.count;
    count = omega (arith, h.count, length-append h.waiting (r ∷ []));
    total = omega (arith, h.total, length-append rows (r ∷ []));
    same = ap (λ t. t ++ (r ∷ [])) h.same ∙ append-append (concat h.groups) h.waiting (r ∷ []);
  }

  batch_text-filled :
      (rows : List (List Bytes)) → 1 ≤ length rows → batch_text rows ≡ insert_text rows
  unfolding batch_text
  batch_text-filled [] h = absurd (omega arith)
  batch_text-filled (r ∷ rows) h = refl

  -- A batch that the database takes is one group more.
  pub flush-Holds :
      (first : d.Tx) (s after : Import runtime d input prefix) (rows : List (List Bytes))
      → Holds first s rows
      → s.batch_rows ≤ 500
      → flush runtime d input prefix s ≡ some after
      → Holds first after rows × (after.batch_rows ≡ 0) × (after.line ≡ s.line)
  unfolding flush batch_text
  flush-Holds first s after rows h small e = elim (Bool-cases (s.batch_rows == 0)) [
    | inl z ↦
        let same : s ≡ after = ground (arith, z, e) in
        subst (λ t. Holds first t rows × (t.batch_rows ≡ 0) × (t.line ≡ s.line)) same
          (h, ground (arith, z), refl)
    | inr z ↦ elim (Option-cases (d.execute s.transaction s.batch)) [
      | inl n ↦ absurd (ground (arith, z, n, e))
      | inr (tx, x) ↦
          let flushed = record s { transaction = tx; batch = []; batch_rows = 0 } in
          let same : flushed ≡ after = ground (arith, z, x, e) in
          let some_rows : 1 ≤ length h.waiting = ground (arith, z, h.count) in
          let taken =
            subst (λ t. d.execute s.transaction t ≡ some tx)
              (h.batch ∙ batch_text-filled h.waiting some_rows) x in
          subst (λ t. Holds first t rows × (t.batch_rows ≡ 0) × (t.line ≡ s.line)) same
            (
              record {
                groups = h.groups ++ (h.waiting ∷ []);
                waiting = [];
                sent =
                    ap (execute_all first) (map-append insert_text h.groups (h.waiting ∷ []))
                    ∙ execute_all-append first s.transaction tx (map insert_text h.groups)
                        (insert_text h.waiting) h.sent taken;
                sizes =
                    All-append_last Sized h.groups h.waiting h.sizes
                      (some_rows, omega (arith, small, h.count));
                batch = refl;
                count = refl;
                total = h.total;
                same =
                    h.same
                    ∙ (sym (concat-append h.groups h.waiting)
                        ∙ sym (append-nil (concat (h.groups ++ (h.waiting ∷ [])))));
              },
              refl,
              refl,
            )
    ]
  ]
