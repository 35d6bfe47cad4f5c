-- ===== src/Unreal/Copies/Copying.antt =====
-- unreal/wrappers/wrapped_struct.cpp: what a copy of a struct leaves in memory.
use unrealsdk.Base.{
  not, Option, none, ℕ, zero, suc, ◌+◌, ◌<◌, ◌≤◌, ◌≡◌, ◌≢◌, refl, sym, ◌∙◌, ap, subst, true, false,
  if◌then◌else◌, List, [], ◌∷◌, map, arith, Bool-cases, inl, inr, ◌⊎◌,
}
use unrealsdk.Unreal.Copies.{
  StructProperty, element_offset, put_element, copy_element, copy_elements, copy_properties,
  copy_struct, copy_params,
}

-- The offsets of `n` elements from `i`, in front of others.
unfoldable pub offsets_before : StructProperty → ℕ → ℕ → List ℕ → List ℕ
offsets_before p zero i os = os
offsets_before p (suc n) i os = element_offset p i ∷ offsets_before p n (suc i) os

-- The offsets of all elements, and of those of the parameters.
unfoldable pub all_offsets : List StructProperty → List ℕ
all_offsets [] = []
all_offsets (p ∷ ps) = offsets_before p p.dimension 0 (all_offsets ps)

unfoldable pub param_offsets : List StructProperty → List ℕ
param_offsets [] = []
param_offsets (p ∷ ps) =
    if p.is_param then offsets_before p p.dimension 0 (param_offsets ps) else param_offsets ps

unfoldable pub AllSupported : List StructProperty → Type 0
AllSupported [] = Unit
AllSupported (p ∷ ps) = (p.is_supported ≡ true) × AllSupported ps

unfoldable pub Misses : ℕ → List ℕ → Type 0
Misses o [] = Unit
Misses o (o' ∷ os) = (o ≢ o') × Misses o os

unfoldable pub AllDistinct : List ℕ → Type 0
AllDistinct [] = Unit
AllDistinct (o ∷ os) = Misses o os × AllDistinct os

unfoldable pub AllBelow : ℕ → List ℕ → Type 0
AllBelow size [] = Unit
AllBelow size (o ∷ os) = (o < size) × AllBelow size os

-- The elements at the offsets are copied, and the source's are as they were.
unfoldable pub AllCopied : {V : Type 0} → ℕ → ℕ → (ℕ → V) → (ℕ → V) → List ℕ → Type 0
AllCopied dest src before after [] = Unit
AllCopied dest src before after (o ∷ os) =
    (after (dest + o) ≡ before (src + o))
    × (after (src + o) ≡ before (src + o))
    × AllCopied dest src before after os

-- No read or write of an element at these offsets throws, whatever it is written over.
unfoldable pub AllSet : {V : Type 0} → (ℕ → V → V → Option V) → ℕ → (ℕ → V) → List ℕ → Type 0
AllSet {V} failure src memory [] = Unit
AllSet {V} failure src memory (o ∷ os) =
    ((old : V) → failure o (memory (src + o)) old ≡ none) × AllSet failure src memory os

below_rest :
    (size : ℕ) (p : StructProperty) (n i : ℕ) (os : List ℕ)
    → AllBelow size (offsets_before p n i os)
    → AllBelow size os
unfolding AllBelow offsets_before
below_rest size p zero i os h = h
below_rest size p (suc n) i os (l, h) = below_rest size p n (suc i) os h

module _ (dest src : ℕ) where
  Misses-shift : (o : ℕ) (os : List ℕ) → Misses o os → Misses (dest + o) (map (λ o. dest + o) os)
  unfolding Misses
  Misses-shift o [] h = tt
  Misses-shift o (o' ∷ os) (other, h) = (λ e. other (omega arith), Misses-shift o os h)

  module _ (size : ℕ) (apart : (dest + size ≤ src) ⊎ (src + size ≤ dest)) where
    source_elsewhere : (o o' : ℕ) → o < size → o' < size → src + o ≢ dest + o'
    source_elsewhere o o' l u =
        λ e. elim apart [ inl below ↦ absurd (omega arith) | inr above ↦ absurd (omega arith) ]

    source-Misses :
        (o : ℕ) (os : List ℕ)
        → o < size
        → AllBelow size os
        → Misses (src + o) (map (λ o. dest + o) os)
    unfolding Misses AllBelow
    source-Misses o [] l h = tt
    source-Misses o (o' ∷ os) l (u, h) = (source_elsewhere o o' l u, source-Misses o os l h)

  module _ {V : Type 0} (failure : ℕ → V → V → Option V) where
    copied : ℕ → (ℕ → V) → ℕ → V
    copied o memory = put_element failure dest src o (memory (src + o)) memory

    copy_all : List ℕ → (ℕ → V) → ℕ → V
    copy_all [] memory = memory
    copy_all (o ∷ os) memory = copy_all os (copied o memory)

    copy_element_returns :
        (o : ℕ) (memory : ℕ → V)
        → ((old : V) → failure o (memory (src + o)) old ≡ none)
        → copy_element failure dest src o memory ≡ (copied o memory, false)
    unfolding copy_element copied
    copy_element_returns o memory sets = let e = sets (memory (dest + o)) in ground (arith, e)

    copy_all-missed :
        (a : ℕ) (os : List ℕ) (memory : ℕ → V)
        → Misses a (map (λ o. dest + o) os)
        → copy_all os memory a ≡ memory a
    unfolding copy_all copied put_element Misses
    copy_all-missed a [] memory h = refl
    copy_all-missed a (o ∷ os) memory (other, h) =
        let rest = copy_all-missed a os (copied o memory) h in ground (arith, rest, other)

    copied_here : (o : ℕ) (memory : ℕ → V) → copied o memory (dest + o) ≡ memory (src + o)
    unfolding copied put_element
    copied_here o memory = ground arith

    module _ (size : ℕ) (apart : (dest + size ≤ src) ⊎ (src + size ≤ dest)) where
      source_kept :
          (o o' : ℕ) (memory : ℕ → V)
          → o < size
          → o' < size
          → copied o memory (src + o') ≡ memory (src + o')
      unfolding copied put_element
      source_kept o o' memory l u =
          let other = source_elsewhere size apart o' o u l in ground (arith, other)

      AllSet-copied :
          (o : ℕ) (os : List ℕ) (memory : ℕ → V)
          → o < size
          → AllBelow size os
          → AllSet failure src memory os
          → AllSet failure src (copied o memory) os
      unfolding AllSet AllBelow
      AllSet-copied o [] memory l h s = tt
      AllSet-copied o (o' ∷ os) memory l (u, h) (sets, s) = (
        λ old. ap (λ v. failure o' v old) (source_kept o o' memory l u) ∙ sets old,
        AllSet-copied o os memory l h s,
      )

      elements_return :
          (p : StructProperty) (n i : ℕ) (os : List ℕ) (memory : ℕ → V)
          → AllBelow size (offsets_before p n i os)
          → AllSet failure src memory (offsets_before p n i os)
          → (m : ℕ → V) × (copy_elements failure dest src p n i memory ≡ (m, false))
            × (copy_all os m ≡ copy_all (offsets_before p n i os) memory)
            × AllSet failure src m os
      unfolding copy_elements offsets_before copy_all AllSet AllBelow
      elements_return p zero i os memory h s = (memory, refl, refl, s)
      elements_return p (suc n) i os memory (l, h) (sets, s) =
          let o = element_offset p i in
          let (m, e, same, later) =
            elements_return p n (suc i) os (copied o memory) h
              (AllSet-copied o (offsets_before p n (suc i) os) memory l h s) in
          (
            m,
            ap (λ r. if r.1 then r else copy_elements failure dest src p n (suc i) r.0)
                  (copy_element_returns o memory sets)
                ∙ e,
            same,
            later,
          )

      properties_return :
          (ps : List StructProperty) (memory : ℕ → V)
          → AllSupported ps
          → AllBelow size (all_offsets ps)
          → AllSet failure src memory (all_offsets ps)
          → copy_properties failure dest src ps memory ≡ (copy_all (all_offsets ps) memory, false)
      unfolding copy_properties all_offsets copy_all AllSupported
      properties_return [] memory s h w = refl
      properties_return (p ∷ ps) memory (here, s) h w =
          let (m, e, same, later) = elements_return p p.dimension 0 (all_offsets ps) memory h w in
          let r = copy_elements failure dest src p p.dimension 0 memory in
          ap
            (λ c.
              if not c
              then (memory, true)
              else if r.1
              then r
              else copy_properties failure dest src ps r.0)
            here
          ∙ ap (λ r. if r.1 then r else copy_properties failure dest src ps r.0) e
          ∙ properties_return ps m s (below_rest size p p.dimension 0 (all_offsets ps) h) later
          ∙ ap (λ m. (m, false)) same

      AllCopied-copied :
          (o : ℕ) (os : List ℕ) (memory after : ℕ → V)
          → o < size
          → AllBelow size os
          → AllCopied dest src (copied o memory) after os
          → AllCopied dest src memory after os
      unfolding AllCopied AllBelow
      AllCopied-copied o [] memory after l h c = tt
      AllCopied-copied o (o' ∷ os) memory after l (u, h) (value, kept, c) = (
        value ∙ source_kept o o' memory l u,
        kept ∙ source_kept o o' memory l u,
        AllCopied-copied o os memory after l h c,
      )

      copy_all-AllCopied :
          (os : List ℕ) (memory : ℕ → V)
          → AllDistinct os
          → AllBelow size os
          → AllCopied dest src memory (copy_all os memory) os
      unfolding copy_all AllCopied AllDistinct AllBelow
      copy_all-AllCopied [] memory d h = tt
      copy_all-AllCopied (o ∷ os) memory (misses, d) (l, h) =
          let first = copied o memory in
          (
            copy_all-missed (dest + o) os first (Misses-shift o os misses) ∙ copied_here o memory,
            copy_all-missed (src + o) os first (source-Misses size apart o os l h)
                ∙ source_kept o o memory l l,
            AllCopied-copied o os memory (copy_all os first) l h (copy_all-AllCopied os first d h),
          )

      -- A copy of a struct into memory apart from it throws nothing, gives each element the value of the
      -- source's, and leaves the source as it is, when the classes of its properties are supported, no
      -- read or write of an element throws, and its elements have different offsets below its size, which
      -- is not 0.
      pub copy_struct-AllCopied :
          (ps : List StructProperty) (memory : ℕ → V)
          → 0 < size
          → AllSupported ps
          → AllDistinct (all_offsets ps)
          → AllBelow size (all_offsets ps)
          → AllSet failure src memory (all_offsets ps)
          → ((copy_struct failure dest src ps memory).1 ≡ false)
            × AllCopied dest src memory (copy_struct failure dest src ps memory).0 (all_offsets ps)
      unfolding copy_struct
      copy_struct-AllCopied ps memory some_size s d h w =
          let elsewhere = source_elsewhere size apart 0 0 some_size some_size in
          let whole : copy_struct failure dest src ps memory
              ≡ copy_properties failure dest src ps memory =
            ground (arith, elsewhere) in
          subst (λ r. (r.1 ≡ false) × AllCopied dest src memory r.0 (all_offsets ps))
            (sym (whole ∙ properties_return ps memory s h w))
            (refl, copy_all-AllCopied (all_offsets ps) memory d h)

      params_return :
          (ps : List StructProperty) (memory : ℕ → V)
          → AllSupported ps
          → AllBelow size (param_offsets ps)
          → AllSet failure src memory (param_offsets ps)
          → copy_params failure dest src ps memory ≡ (copy_all (param_offsets ps) memory, false)
      unfolding copy_params param_offsets copy_all AllSupported
      params_return [] memory s h w = refl
      params_return (p ∷ ps) memory (here, s) h w = elim (Bool-cases p.is_param) [
        | inr other ↦
            let others =
              ap
                (λ c.
                  if c then offsets_before p p.dimension 0 (param_offsets ps) else param_offsets ps)
                other in
            let rest =
              params_return ps memory s (subst (AllBelow size) others h)
                (subst (AllSet failure src memory) others w) in
            ground (arith, other, rest)
        | inl param ↦
            let taken =
              ap
                (λ c.
                  if c then offsets_before p p.dimension 0 (param_offsets ps) else param_offsets ps)
                param in
            let below = subst (AllBelow size) taken h in
            let (m, e, same, later) =
              elements_return p p.dimension 0 (param_offsets ps) memory below
                (subst (AllSet failure src memory) taken w) in
            let rest =
              params_return ps m s (below_rest size p p.dimension 0 (param_offsets ps) below)
                later in
            let first = copy_elements failure dest src p p.dimension 0 memory in
            ap
              (λ c.
                if not c
                then copy_params failure dest src ps memory
                else if not p.is_supported
                then (memory, true)
                else if first.1
                then first
                else copy_params failure dest src ps first.0)
              param
            ∙ ap
                (λ c.
                  if not c
                  then (memory, true)
                  else if first.1
                  then first
                  else copy_params failure dest src ps first.0)
                here
            ∙ ap (λ r. if r.1 then r else copy_params failure dest src ps r.0) e
            ∙ rest
            ∙ ap (λ m. (m, false)) (same ∙ ap (λ os. copy_all os memory) (sym taken))
      ]

      -- `copy_params_only` does the same for the parameters alone.
      pub copy_params-AllCopied :
          (ps : List StructProperty) (memory : ℕ → V)
          → AllSupported ps
          → AllDistinct (param_offsets ps)
          → AllBelow size (param_offsets ps)
          → AllSet failure src memory (param_offsets ps)
          → ((copy_params failure dest src ps memory).1 ≡ false)
            × AllCopied dest src memory
                (copy_params failure dest src ps memory).0
                (param_offsets ps)
      copy_params-AllCopied ps memory s d h w =
          subst (λ r. (r.1 ≡ false) × AllCopied dest src memory r.0 (param_offsets ps))
            (sym (params_return ps memory s h w))
            (refl, copy_all-AllCopied (param_offsets ps) memory d h)
