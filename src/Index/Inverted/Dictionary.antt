-- ===== src/Index/Inverted/Dictionary.antt =====
-- The term dictionary of src/index/inverted.rs: looking up a term's statistics after `add_term`.
use drusdenx.Prelude.{
  ℕ, ◌<◌, ◌≤◌, ◌≡◌, refl, sym, ap, ◌∙◌, List, [], ◌∷◌, ◌++◌, Option, none, some, Result, ok, ◌>>=◌,
  or_panic, ◌⊎◌, true, if◌then◌else◌, arith, Bool-cases, Option-cases, inl, inr, length,
  length-append, get_elem?,
}
use drusdenx.Index.Inverted.{
  Term, same_term, get, insert, TermInfo, TermDictionary, set_doc_freq, add_term, info_at,
  get_term_info,
}
use drusdenx.Index.Inverted.Maps.{same_term→≡, same_term_self, get-insert}

module _ {F : Type 0} where
  -- Every number of a term is that of an entry, and of this term alone.
  pub record IsDictionary (d : TermDictionary F) : Type 0 where
    pub in_range : (t : Term) (i : ℕ) → get t d.term_map ≡ some i → i < length d.term_infos
    pub apart :
        (t u : Term) (i : ℕ)
        → get t d.term_map ≡ some i
        → get u d.term_map ≡ some i
        → same_term t u ≡ true

  length-set_doc_freq :
      (i n : ℕ) (infos : List (TermInfo F)) → length (set_doc_freq i n infos) ≡ length infos
  unfolding set_doc_freq
  length-set_doc_freq i n [] = refl
  length-set_doc_freq ℕ.zero n (info ∷ infos) = refl
  length-set_doc_freq (ℕ.suc i) n (info ∷ infos) = ap ℕ.suc (length-set_doc_freq i n infos)

  -- The document frequency at an index.
  frequency_at : List (TermInfo F) → ℕ → Result ℕ
  frequency_at infos i = do info ← or_panic (get_elem? infos i); ok info.doc_freq

  frequency_at-set_doc_freq :
      (i n : ℕ) (infos : List (TermInfo F))
      → i < length infos
      → frequency_at (set_doc_freq i n infos) i ≡ ok n
  unfolding frequency_at set_doc_freq
  frequency_at-set_doc_freq i n [] h = absurd (omega arith)
  frequency_at-set_doc_freq ℕ.zero n (info ∷ infos) h = refl
  frequency_at-set_doc_freq (ℕ.suc i) n (info ∷ infos) h =
      frequency_at-set_doc_freq i n infos (omega arith)

  frequency_at-set_doc_freq_other :
      (i j n : ℕ) (infos : List (TermInfo F))
      → ¬ (i ≡ j)
      → frequency_at (set_doc_freq i n infos) j ≡ frequency_at infos j
  unfolding frequency_at set_doc_freq
  frequency_at-set_doc_freq_other i j n [] h = refl
  frequency_at-set_doc_freq_other ℕ.zero ℕ.zero n (info ∷ infos) h = absurd (h refl)
  frequency_at-set_doc_freq_other ℕ.zero (ℕ.suc j) n (info ∷ infos) h = refl
  frequency_at-set_doc_freq_other (ℕ.suc i) ℕ.zero n (info ∷ infos) h = refl
  frequency_at-set_doc_freq_other (ℕ.suc i) (ℕ.suc j) n (info ∷ infos) h =
      frequency_at-set_doc_freq_other i j n infos (λ e. h (ap ℕ.suc e))

  frequency_at-append :
      (infos : List (TermInfo F)) (info : TermInfo F) (i : ℕ)
      → i < length infos
      → frequency_at (infos ++ info ∷ []) i ≡ frequency_at infos i
  unfolding frequency_at
  frequency_at-append [] info i h = absurd (omega arith)
  frequency_at-append (x ∷ infos) info ℕ.zero h = refl
  frequency_at-append (x ∷ infos) info (ℕ.suc i) h = frequency_at-append infos info i (omega arith)

  frequency_at-last :
      (infos : List (TermInfo F)) (info : TermInfo F)
      → frequency_at (infos ++ info ∷ []) (length infos) ≡ ok info.doc_freq
  unfolding frequency_at
  frequency_at-last [] info = refl
  frequency_at-last (x ∷ infos) info = frequency_at-last infos info

  -- The document frequency of a term, where the dictionary has it.
  pub doc_freq_of : Term → TermDictionary F → Result (Option ℕ)
  unfolding get_term_info
  doc_freq_of t d = do
    info ← get_term_info t d
    elim info [ none ↦ ok none | some i ↦ ok (some i.doc_freq) ]

  looked_up : List (TermInfo F) → Option ℕ → Result (Option ℕ)
  looked_up infos none = ok none
  looked_up infos (some i) = do n ← frequency_at infos i; ok (some n)

  doc_freq_of-looked_up :
      (t : Term) (d : TermDictionary F)
      → doc_freq_of t d ≡ looked_up d.term_infos (get t d.term_map)
  unfolding doc_freq_of get_term_info looked_up frequency_at
  doc_freq_of-looked_up t d = at (get t d.term_map)
    where
      at :
          (o : Option ℕ)
          → (do
            info ← info_at d.term_infos o
            elim info [ none ↦ ok none | some x ↦ ok (some x.doc_freq) ])
            ≡ looked_up d.term_infos o
      at none = refl
      at (some i) = found (get_elem? d.term_infos i)
        where
          found :
              (o : Option (TermInfo F))
              → (do
                info ← (do info ← or_panic o; ok (some info))
                elim info [ none ↦ ok none | some x ↦ ok (some x.doc_freq) ])
                ≡ (do n ← (do info ← or_panic o; ok info.doc_freq); ok (some n))
          found none = refl
          found (some info) = refl

  looked_up-append :
      (infos : List (TermInfo F)) (info : TermInfo F) (o : Option ℕ)
      → ((i : ℕ) → o ≡ some i → i < length infos)
      → looked_up (infos ++ info ∷ []) o ≡ looked_up infos o
  unfolding looked_up
  looked_up-append infos info none h = refl
  looked_up-append infos info (some i) h = rw (frequency_at-append infos info i (h i refl)) refl

  looked_up_other :
      (i n : ℕ) (infos : List (TermInfo F)) (o : Option ℕ)
      → ¬ (o ≡ some i)
      → looked_up (set_doc_freq i n infos) o ≡ looked_up infos o
  unfolding looked_up
  looked_up_other i n infos none h = refl
  looked_up_other i n infos (some j) h =
      rw (frequency_at-set_doc_freq_other i j n infos (λ e. h (ap some (sym e)))) refl

  -- After `add_term` a term's document frequency is the given one, and any other term's is unchanged.
  pub doc_freq_of-add_term :
      (zero : F) (t u : Term) (n : ℕ) (d : TermDictionary F)
      → IsDictionary d
      → doc_freq_of t (add_term zero u n d)
        ≡ (if same_term t u then ok (some n) else doc_freq_of t d)
  unfolding add_term
  doc_freq_of-add_term zero t u n d is =
      rw (doc_freq_of-looked_up t (add_term zero u n d), doc_freq_of-looked_up t d)
        (elim (Option-cases (get u d.term_map)) [
          | inl e ↦
              rw (e, get-insert t u (length d.term_infos) d.term_map)
                (elim (Bool-cases (same_term t u)) [
                  | inl h ↦ rw h (unfold looked_up in rw (frequency_at-last d.term_infos _) refl)
                  | inr h ↦
                      rw h (looked_up-append d.term_infos _ (get t d.term_map) (is.in_range t))
                ])
          | inr (i, e) ↦ rw e (elim (Bool-cases (same_term t u)) [
            | inl h ↦
                let e' : get t d.term_map ≡ some i = rw (same_term→≡ t u h) e in
                rw (h, e')
                  (unfold looked_up in
                    rw (frequency_at-set_doc_freq i n d.term_infos (is.in_range u i e)) refl)
            | inr h ↦ rw h (
                looked_up_other i n d.term_infos (get t d.term_map)
                  (λ e'. let k = is.apart t u i e' e in cc))
          ])
        ])

  -- A dictionary without terms.
  pub empty-IsDictionary : IsDictionary (record { term_infos = []; term_map = [] })
  unfolding get
  empty-IsDictionary = record { in_range = λ t i e. absurd (cc); apart = λ t u i e e'. absurd (cc) }

  -- A term that the dictionary lacks gets the number of a new entry.
  new_number :
      (t u : Term) (d : TermDictionary F) (i : ℕ)
      → IsDictionary d
      → get t (insert u (length d.term_infos) d.term_map) ≡ some i
      → ((same_term t u ≡ true) × (i ≡ length d.term_infos))
        ⊎ ((get t d.term_map ≡ some i) × (i < length d.term_infos))
  new_number t u d i is e =
      let k : (if same_term t u then some (length d.term_infos) else get t d.term_map) ≡ some i =
        sym (get-insert t u (length d.term_infos) d.term_map) ∙ e in
      elim (Bool-cases (same_term t u)) [
        | inl h ↦ let k' : some (length d.term_infos) ≡ some i = rw h at k in inl (h, cc)
        | inr h ↦ let k' : get t d.term_map ≡ some i = rw h at k in inr (k', is.in_range t i k')
      ]

  abbrev new_info : F → ℕ → TermInfo F
  new_info zero n = record {
    doc_freq = n;
    total_freq = n;
    idf = zero;
    posting_offset = 0;
    posting_size = 0;
  }

  pub add_term-IsDictionary :
      (zero : F) (u : Term) (n : ℕ) (d : TermDictionary F)
      → IsDictionary d
      → IsDictionary (add_term zero u n d)
  unfolding add_term
  add_term-IsDictionary zero u n d is = elim (Option-cases (get u d.term_map)) [
    | inl e ↦ rw e (record {
      in_range = λ t i h. omega (
        arith,
        length-append d.term_infos (new_info zero n ∷ []),
        elim (new_number t u d i is h) as (λ _. i ≤ length d.term_infos) [
          | inl k ↦ omega arith
          | inr k ↦ omega arith
        ],
      );
      apart = λ t t' i h h'. both t t' i (new_number t u d i is h) (new_number t' u d i is h');
    })
    | inr (i, e) ↦ rw e (record {
      in_range = λ t j h. rw (length-set_doc_freq i n d.term_infos) (is.in_range t j h);
      apart = is.apart;
    })
  ]
    where
      both :
          (t t' : Term) (i : ℕ)
          → ((same_term t u ≡ true) × (i ≡ length d.term_infos))
            ⊎ ((get t d.term_map ≡ some i) × (i < length d.term_infos))
          → ((same_term t' u ≡ true) × (i ≡ length d.term_infos))
            ⊎ ((get t' d.term_map ≡ some i) × (i < length d.term_infos))
          → same_term t t' ≡ true
      both t t' i (inl k) (inl k') =
          let e : t ≡ u = same_term→≡ t u k.0 in
          let e' : t' ≡ u = same_term→≡ t' u k'.0 in rw (e, e') (same_term_self u)
      both t t' i (inl k) (inr k') = absurd (omega arith)
      both t t' i (inr k) (inl k') = absurd (omega arith)
      both t t' i (inr k) (inr k') = is.apart t t' i k.0 k'.0

pub doc_freq_of-empty :
    (F : Type 0) (t : Term)
    → doc_freq_of {F = F} t (record { term_infos = []; term_map = [] }) ≡ ok none
unfolding doc_freq_of get_term_info get
doc_freq_of-empty F t = refl
