-- ===== src/DeepCopy/Laws.antt =====
-- What it means that a copy is deep, and the copies that are put together from deep ones.
use nodedeploy_controller.Prelude.{
  ℕ, zero, suc, Option, none, some, List, [], ◌∷◌, ◌++◌, length, ◌≡◌, refl, sym, ap, ◌∙◌, arith,
}
use nodedeploy_controller.DeepCopy.{Copy, assign, both, each, unless_nil, into_new, cell_at}

module _ {C : Type 0} where
  append_assoc : (xs ys zs : List C) → (xs ++ ys) ++ zs ≡ xs ++ (ys ++ zs)
  append_assoc [] ys zs = refl
  append_assoc (x ∷ xs) ys zs = ap (λ l. x ∷ l) (append_assoc xs ys zs)

  append-nil : (xs : List C) → xs ++ [] ≡ xs
  append-nil [] = refl
  append-nil (x ∷ xs) = ap (λ l. x ∷ l) (append-nil xs)

  length-append :
      (xs ys zs : List C) → length xs ≡ length ys → length (xs ++ zs) ≡ length (ys ++ zs)
  length-append [] [] zs e = refl
  length-append [] (y ∷ ys) zs e = absurd (omega arith)
  length-append (x ∷ xs) [] zs e = absurd (omega arith)
  length-append (x ∷ xs) (y ∷ ys) zs e = ap suc (length-append xs ys zs (omega arith))

  cell_at-new :
      (h more : List C) (c : C) (a : ℕ) → a ≡ length h → cell_at (h ++ c ∷ more) a ≡ some c
  unfolding cell_at
  cell_at-new [] more c zero e = refl
  cell_at-new [] more c (suc a) e = absurd (omega arith)
  cell_at-new (x ∷ h) more c zero e = absurd (omega arith)
  cell_at-new (x ∷ h) more c (suc a) e = cell_at-new h more c a (omega arith)

  cell_at-append :
      (h more : List C) (a : ℕ) (c : C) → cell_at h a ≡ some c → cell_at (h ++ more) a ≡ some c
  unfolding cell_at
  cell_at-append [] more a c e = absurd (cc e)
  cell_at-append (x ∷ h) more zero c e = e
  cell_at-append (x ∷ h) more (suc a) c e = cell_at-append h more a c e

module _ {C A V : Type 0} where
  -- Everything that a value refers to is in memory already.
  abbrev pub Lives : (List C → A → V) → List C → A → Type 0
  Lives read h a = (more : List C) → read (h ++ more) a ≡ read h a

  -- The copy of a value leaves memory as it was, but for new cells at its end, and it has the contents of
  -- the value whatever is written to the old cells.
  pub record IsCopied (read : List C → A → V) (copy : Copy C A) (a : A) (h : List C) : Type 0 where
    pub new : List C
    pub grown : (copy a h).1 ≡ h ++ new
    pub same :
        (old more : List C)
        → length old ≡ length h
        → read (old ++ (new ++ more)) (copy a h).0 ≡ read h a

  pub record IsDeep (read : List C → A → V) (copy : Copy C A) : Type 0 where
    pub at : (a : A) (h : List C) → Lives read h a → IsCopied read copy a h

module _ {C A : Type 0} where
  -- A value that refers to nothing
  pub assign-IsDeep : IsDeep {C = C} {A = A} (λ h a. a) assign
  assign-IsDeep = record {
    at = λ a h lives. record { new = []; grown = sym (append-nil h); same = λ old more e. refl };
  }

module _ {C A V : Type 0} (r : List C → A → V) where
  -- Reading where memory has grown
  read_later : (a : A) (h g new : List C) → g ≡ h ++ new → Lives r h a → r g a ≡ r h a
  read_later a h g new e lives = ap (λ k. r k a) e ∙ lives new

  Lives-later : (a : A) (h g new : List C) → g ≡ h ++ new → Lives r h a → Lives r g a
  Lives-later a h g new e lives more =
      ap (λ k. r k a) (ap (λ k. k ++ more) e ∙ append_assoc h new more)
      ∙ lives (new ++ more)
      ∙ sym (read_later a h g new e lives)

module _ {C A B V U : Type 0} (r : List C → A → V) (r' : List C → B → U) where
  abbrev pub read_both : List C → A × B → V × U
  read_both h (a, b) = (r h a, r' h b)

  module _ (copy : Copy C A) (copy' : Copy C B) (a : A) (b : B) (h : List C) where
    both-IsCopied :
        Lives r' h b
        → IsCopied r copy a h
        → IsCopied r' copy' b (copy a h).1
        → IsCopied read_both (both copy copy') (a, b) h
    both-IsCopied lives one two = record {
      new = one.new ++ two.new;
      grown = two.grown ∙ ap (λ k. k ++ two.new) one.grown ∙ append_assoc h one.new two.new;
      same = λ old more e i. (first old more e i, second old more e i);
    }
      where
        laid :
            (old more : List C)
            → old ++ ((one.new ++ two.new) ++ more) ≡ old ++ (one.new ++ (two.new ++ more))
        laid old more = ap (λ k. old ++ k) (append_assoc one.new two.new more)

        first :
            (old more : List C)
            → length old ≡ length h
            → r (old ++ ((one.new ++ two.new) ++ more)) (copy a h).0 ≡ r h a
        first old more e =
            ap (λ k. r k (copy a h).0) (laid old more) ∙ one.same old (two.new ++ more) e

        second :
            (old more : List C)
            → length old ≡ length h
            → r' (old ++ ((one.new ++ two.new) ++ more)) (copy' b (copy a h).1).0 ≡ r' h b
        second old more e =
            ap (λ k. r' k (copy' b (copy a h).1).0)
              (laid old more ∙ sym (append_assoc old one.new (two.new ++ more)))
            ∙ two.same (old ++ one.new) more
                (length-append old h one.new e ∙ ap length (sym one.grown))
            ∙ read_later r' b h (copy a h).1 one.new one.grown lives

  -- One deep copy after another
  pub both-IsDeep :
      (copy : Copy C A) (copy' : Copy C B)
      → IsDeep r copy
      → IsDeep r' copy'
      → IsDeep read_both (both copy copy')
  both-IsDeep copy copy' deep deep' = record {
    at = λ p h lives.
        let lives₁ : Lives r h p.0 = λ more. ap (λ q. q.0) (lives more) in
        let lives₂ : Lives r' h p.1 = λ more. ap (λ q. q.1) (lives more) in
        let one = deep.at p.0 h lives₁ in
        both-IsCopied copy copy' p.0 p.1 h lives₂ one
          (deep'.at p.1 (copy p.0 h).1 (Lives-later r' p.1 h _ one.new one.grown lives₂));
  }

module _ {C A V : Type 0} (r : List C → A → V) where
  abbrev pub read_each : List C → List A → List V
  read_each h [] = []
  read_each h (x ∷ xs) = r h x ∷ read_each h xs

  -- nil, or what the address refers to
  abbrev pub read_pointer : List C → Option A → Option V
  read_pointer h none = none
  read_pointer h (some a) = some (r h a)

  abbrev pub read_array : (Option C → List A) → List C → ℕ → List V
  read_array elements h a = read_each h (elements (cell_at h a))

module _ {C A V : Type 0} (r : List C → A → V) (copy : Copy C A) where
  abbrev read_all : List C → List A → List V
  read_all = read_each r

  each-IsCopied :
      IsDeep r copy
      → (xs : List A) (h : List C) → Lives read_all h xs
      → IsCopied read_all (each copy) xs h
  unfolding each
  each-IsCopied deep [] h lives = record {
    new = [];
    grown = sym (append-nil h);
    same = λ old more e. refl;
  }
  each-IsCopied deep (x ∷ xs) h lives =
      let head : Lives r h x = λ more. cc (lives more) in
      let tail : Lives read_all h xs = λ more. cc (lives more) in
      let one = deep.at x h head in
      let two =
        each-IsCopied deep xs (copy x h).1 (Lives-later read_all xs h _ one.new one.grown tail) in
      let pair = both-IsCopied r read_all copy (each copy) x xs h tail one two in
      record {
        new = pair.new;
        grown = pair.grown;
        same = λ old more e. ap (λ p. p.0 ∷ p.1) (pair.same old more e);
      }

  pub unless_nil-IsDeep : IsDeep r copy → IsDeep (read_pointer r) (unless_nil copy)
  unfolding unless_nil
  unless_nil-IsDeep deep = record { at = copied }
    where
      copied :
          (o : Option A) (h : List C)
          → Lives (read_pointer r) h o
          → IsCopied (read_pointer r) (unless_nil copy) o h
      copied none h lives = record {
        new = [];
        grown = sym (append-nil h);
        same = λ old more e. refl;
      }
      copied (some a) h lives =
          let one = deep.at a h (λ more. cc (lives more)) in
          record {
            new = one.new;
            grown = one.grown;
            same = λ old more e. ap some (one.same old more e);
          }

  module _ (elements : Option C → List A) (cell : List A → C) (of_none : elements none ≡ [])
      (of_cell : (xs : List A) → elements (some (cell xs)) ≡ xs) where
    elements-Lives :
        (a : ℕ) (h : List C) (o : Option C)
        → cell_at h a ≡ o
        → Lives (read_array r elements) h a
        → Lives read_all h (elements o)
    unfolding cell_at
    elements-Lives a h none e lives more =
        ap (read_all (h ++ more)) of_none ∙ sym (ap (read_all h) of_none)
    elements-Lives a h (some c) e lives more =
        ap (λ o. read_all (h ++ more) (elements o)) (sym (cell_at-append h more a c e))
        ∙ lives more
        ∙ ap (λ o. read_all h (elements o)) e

    pub into_new-IsDeep :
        IsDeep r copy → IsDeep (read_array r elements) (into_new elements cell copy)
    unfolding into_new
    into_new-IsDeep deep = record {
      at = λ a h lives.
          let inner =
            each-IsCopied deep (elements (cell_at h a)) h
              (elements-Lives a h (cell_at h a) refl lives) in
          let xs = (each copy (elements (cell_at h a)) h).0 in
          let g = (each copy (elements (cell_at h a)) h).1 in
          record {
            new = inner.new ++ cell xs ∷ [];
            grown =
                ap (λ k. k ++ cell xs ∷ []) inner.grown ∙ append_assoc h inner.new (cell xs ∷ []);
            same = λ old more e.
                let laid : old ++ ((inner.new ++ cell xs ∷ []) ++ more)
                    ≡ old ++ (inner.new ++ cell xs ∷ more) =
                  ap (λ k. old ++ k) (append_assoc inner.new (cell xs ∷ []) more) in
                ap (λ k. read_array r elements k (length g)) laid
                ∙ ap (λ o. read_all (old ++ (inner.new ++ cell xs ∷ more)) (elements o))
                    (ap (λ k. cell_at k (length g))
                        (sym (append_assoc old inner.new (cell xs ∷ more)))
                      ∙ cell_at-new (old ++ inner.new) more (cell xs) (length g)
                          (ap length inner.grown ∙ sym (length-append old h inner.new e)))
                ∙ ap (read_all (old ++ (inner.new ++ cell xs ∷ more))) (of_cell xs)
                ∙ inner.same old (cell xs ∷ more) e;
          };
    }

module _ {C A B P V : Type 0} (plain : A → P) (field : A → B) (r : List C → B → V) where
  abbrev pub read_struct : List C → A → P × V
  read_struct h a = (plain a, r h (field a))

module _ {C A B P V : Type 0} (plain : A → P) (field : A → B) (set : A → B → A) (r : List C → B → V)
    (copy : Copy C B) where
  -- A struct in which some fields are copied and the others are left as the assignment put them
  pub update-IsDeep :
      ((a : A) (b : B) → plain (set a b) ≡ plain a)
      → ((a : A) (b : B) → field (set a b) ≡ b)
      → IsDeep r copy
      → IsDeep
          (read_struct plain field r)
          (λ a h. (set a (copy (field a) h).0, (copy (field a) h).1))
  update-IsDeep kept got deep = record {
    at = λ a h lives.
        let one = deep.at (field a) h (λ more. ap (λ p. p.1) (lives more)) in
        record {
          new = one.new;
          grown = one.grown;
          same = λ old more e i. (
            kept a (copy (field a) h).0 i,
            (ap (r (old ++ (one.new ++ more))) (got a (copy (field a) h).0) ∙ one.same old more e)
                i,
          );
        };
  }
