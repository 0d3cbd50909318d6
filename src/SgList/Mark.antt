-- ===== src/SgList/Mark.antt =====
-- The marks of the first and the last descriptor of a buffer.
use mpsoc_axidma.Base.{◌≡◌, refl, List, [], ◌∷◌, map, arith, ap, ap₂, ◌∙◌}
use mpsoc_axidma.Heap.{Ptr, SgFields, update}
use mpsoc_axidma.Heap.Ring.{◌∉◌, IsDistinct, last_of, apart}

abbrev pub as_sof : SgFields → SgFields
as_sof f = record f { is_sof = 1 }

abbrev pub as_eof : SgFields → SgFields
as_eof f = record f { is_eof = 1 }

abbrev pub mark_last : List SgFields → List SgFields
mark_last [] = []
mark_last (f ∷ []) = as_eof f ∷ []
mark_last (f ∷ g ∷ fs) = f ∷ mark_last (g ∷ fs)

-- The first is marked as the start of a frame, the last as its end.
abbrev pub mark : List SgFields → List SgFields
mark [] = []
mark (f ∷ fs) = mark_last (as_sof f ∷ fs)

pub map-update :
    (f : Ptr → SgFields) (x : Ptr) (v : SgFields) (xs : List Ptr)
    → x ∉ xs
    → map (update f x v) xs ≡ map f xs
map-update f x v [] o = refl
map-update f x v (y ∷ xs) o = ap₂ ◌∷◌ (ground arith) (map-update f x v xs (ground arith))

pub map-mark_last :
    (f : Ptr → SgFields) (x : Ptr) (xs : List Ptr)
    → IsDistinct (x ∷ xs)
    → map (update f (last_of x xs) (as_eof (f (last_of x xs)))) (x ∷ xs)
      ≡ mark_last (map f (x ∷ xs))
map-mark_last f x [] d = ap₂ ◌∷◌ (ground arith) refl
map-mark_last f x (y ∷ xs) d =
    let ne = apart x y xs d.0 in ap₂ ◌∷◌ (ground arith) (map-mark_last f y xs d.1)

-- Marking the first node and then the last, where they may be one.
pub map-mark :
    (f : Ptr → SgFields) (x : Ptr) (xs : List Ptr)
    → IsDistinct (x ∷ xs)
    → let g = update f x (as_sof (f x)) in
      map (update g (last_of x xs) (as_eof (g (last_of x xs)))) (x ∷ xs) ≡ mark (map f (x ∷ xs))
map-mark f x xs d =
    let g = update f x (as_sof (f x)) in
    let first : map g (x ∷ xs) ≡ as_sof (f x) ∷ map f xs =
      ap₂ ◌∷◌ (ground arith) (map-update f x (as_sof (f x)) xs d.0) in
    map-mark_last g x xs d ∙ ap mark_last first
