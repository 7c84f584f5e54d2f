-- ===== src/Fat16/Directory/Search.antt =====
-- The search for a path in src/file_system/fat/fat16.c.
use mo_os.Prelude.{
  ℕ, ◌≡◌, refl, sym, ap, ◌∙◌, ◌≢◌, ◌⊎◌, inl, inr, Option, none, some, List, [], ◌∷◌, Option-cases,
}
use mo_os.Fat16.Volume.{Directory, Volume}
use mo_os.Fat16.Directory.{
  fat16_find_item_in_directory, walk, fat16_get_directory_entry, FatItem, Lookup, file_item,
  directory_item, found, missing, null_access,
}

module _ (v : Volume) where
  -- The parts lead from a directory to the item.
  abbrev pub Leads : Directory → List ℕ → List (List ℕ) → FatItem → Type 0
  Leads d part [] item = fat16_find_item_in_directory d part v ≡ some item
  Leads d part (next ∷ parts) item =
      (d' : Directory) × (fat16_find_item_in_directory d part v ≡ some (directory_item d'))
      × Leads d' next parts item

  -- A part that is not the last one is missing, in a directory that the parts before it lead to.
  abbrev pub Breaks : Directory → List ℕ → List (List ℕ) → Type 0
  Breaks d part [] = ⊥
  Breaks d part (next ∷ parts) =
      (fat16_find_item_in_directory d part v ≡ none)
      ⊎ ((d' : Directory) × (fat16_find_item_in_directory d part v ≡ some (directory_item d'))
          × Breaks d' next parts)

  eq_of_found : (a b : FatItem) → found a ≡ found b → a ≡ b
  eq_of_found a b e = ap (λ l. elim l [ found x ↦ x | missing ↦ a | null_access ↦ a ]) e

  eq_of_directory : (a b : Directory) → directory_item a ≡ directory_item b → a ≡ b
  eq_of_directory a b e = ap (λ l. elim l [ directory_item x ↦ x | file_item _ ↦ a ]) e

  found_of_Leads :
      (d : Directory) (part : List ℕ) (parts : List (List ℕ)) (item : FatItem)
      → Leads d part parts item
      → walk parts (fat16_find_item_in_directory d part v) v ≡ found item
  unfolding walk
  found_of_Leads d part [] item h = rw h refl
  found_of_Leads d part (next ∷ parts) item (d', here, rest) =
      rw here (found_of_Leads d' next parts item rest)

  Leads-of_found :
      (d : Directory) (part : List ℕ) (parts : List (List ℕ)) (item : FatItem) (o : Option FatItem)
      → fat16_find_item_in_directory d part v ≡ o
      → walk parts o v ≡ found item
      → Leads d part parts item
  unfolding walk
  Leads-of_found d part [] item none e w = cc
  Leads-of_found d part [] item (some i) e w = e ∙ ap some (eq_of_found i item w)
  Leads-of_found d part (next ∷ parts) item none e w = cc
  Leads-of_found d part (next ∷ parts) item (some (file_item i)) e w = cc
  Leads-of_found d part (next ∷ parts) item (some (directory_item d')) e w =
      (d', e, Leads-of_found d' next parts item (fat16_find_item_in_directory d' next v) refl w)

  Breaks-of_null :
      (d : Directory) (part : List ℕ) (parts : List (List ℕ)) (o : Option FatItem)
      → fat16_find_item_in_directory d part v ≡ o
      → walk parts o v ≡ null_access
      → Breaks d part parts
  unfolding walk
  Breaks-of_null d part [] none e w = cc
  Breaks-of_null d part [] (some i) e w = cc
  Breaks-of_null d part (next ∷ parts) none e w = inl e
  Breaks-of_null d part (next ∷ parts) (some (file_item i)) e w = cc
  Breaks-of_null d part (next ∷ parts) (some (directory_item d')) e w =
      inr (d', e, Breaks-of_null d' next parts (fat16_find_item_in_directory d' next v) refl w)

  null_of_Breaks :
      (d : Directory) (part : List ℕ) (parts : List (List ℕ))
      → Breaks d part parts
      → walk parts (fat16_find_item_in_directory d part v) v ≡ null_access
  unfolding walk
  null_of_Breaks d part [] h = absurd h
  null_of_Breaks d part (next ∷ parts) (inl here) = rw here refl
  null_of_Breaks d part (next ∷ parts) (inr (d', here, rest)) =
      rw here (null_of_Breaks d' next parts rest)

  -- Past the first part.
  abbrev pub BreaksLater : List ℕ → List (List ℕ) → Type 0
  BreaksLater part parts =
      Breaks v.root_directory part parts
      × (fat16_find_item_in_directory v.root_directory part v ≢ none)

  -- The first part decides which of the two loops is left.
  entry_some :
      (part : List ℕ) (parts : List (List ℕ)) (i : FatItem)
      → fat16_find_item_in_directory v.root_directory part v ≡ some i
      → fat16_get_directory_entry part parts v
        ≡ walk parts (fat16_find_item_in_directory v.root_directory part v) v
  unfolding fat16_get_directory_entry
  entry_some part parts i e = rw (e, fat16_get_directory_entry) refl

  entry_none :
      (part : List ℕ) (parts : List (List ℕ))
      → fat16_find_item_in_directory v.root_directory part v ≡ none
      → fat16_get_directory_entry part parts v ≡ missing
  unfolding fat16_get_directory_entry
  entry_none part parts e = rw (e, fat16_get_directory_entry) refl

  no_Leads :
      (d : Directory) (part : List ℕ) (parts : List (List ℕ)) (item : FatItem)
      → fat16_find_item_in_directory d part v ≡ none
      → Leads d part parts item
      → ⊥
  no_Leads d part [] item e h = cc (sym e ∙ h)
  no_Leads d part (next ∷ parts) item e (d', here, rest) = cc (sym e ∙ here)

  -- What a search comes to, and when.
  pub data SearchOutcome (part : List ℕ) (parts : List (List ℕ)) : Lookup → Type 0 where
    leads :
        (item : FatItem)
        → Leads v.root_directory part parts item
        → SearchOutcome part parts (found item)
    leads_nowhere :
        ((item : FatItem) → ¬ Leads v.root_directory part parts item)
        → ¬ BreaksLater part parts
        → SearchOutcome part parts missing
    breaks : BreaksLater part parts → SearchOutcome part parts null_access

  some_outcome :
      (part : List ℕ) (parts : List (List ℕ)) (l : Lookup)
      → fat16_find_item_in_directory v.root_directory part v ≢ none
      → walk parts (fat16_find_item_in_directory v.root_directory part v) v ≡ l
      → SearchOutcome part parts l
  some_outcome part parts (found item) first e =
      leads item (Leads-of_found v.root_directory part parts item _ refl e)
  some_outcome part parts missing first e =
      leads_nowhere (λ item h. cc (sym e ∙ found_of_Leads v.root_directory part parts item h))
        (λ h. cc (sym e ∙ null_of_Breaks v.root_directory part parts h.0))
  some_outcome part parts null_access first e =
      breaks (Breaks-of_null v.root_directory part parts _ refl e, first)

  -- `fat16_get_directory_entry` finds the item that the parts lead to from the root directory. It finds
  -- nothing if they lead to none, unless a part is missing that is neither the first nor the last, in a
  -- directory that the parts before it lead to: then the search reads through a null pointer.
  pub fat16_get_directory_entry-SearchOutcome :
      (part : List ℕ) (parts : List (List ℕ))
      → SearchOutcome part parts (fat16_get_directory_entry part parts v)
  fat16_get_directory_entry-SearchOutcome part parts =
      elim (Option-cases (fat16_find_item_in_directory v.root_directory part v)) [
        | inl e ↦
            rw (entry_none part parts e)
              (leads_nowhere (λ item h. no_Leads v.root_directory part parts item e h) (λ h. h.1 e))
        | inr (i, e) ↦
            rw (entry_some part parts i e)
              (some_outcome part parts _ (λ gone. cc (sym e ∙ gone)) refl)
      ]
