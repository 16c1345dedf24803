-- ===== src/Patch/Selecting.antt =====
-- Which patches are kept, and in which order they are sent.
use mathlib.Core.List.{Perm}
use mathlib.Core.List.Perm
use azure_admission_controll.Prelude.{
  String, List, [], ◌∷◌, true, false, not, ◌≡◌, ◌↔◌, inl, inr, arith, keep_sound, keep_complete,
  Memᴰ, starts_with, leb_text, leb_text_total, Bool-cases,
}
use azure_admission_controll.Patch.{PatchOperation, skip_for_path, insert_patch, sort_patches}

-- `SkipForPath` keeps exactly the patches whose path does not start with the given one.
pub skip_for_path_iff :
    (path : String) (patches : List PatchOperation) (patch : PatchOperation)
    → Memᴰ patch (skip_for_path path patches)
      ↔ (Memᴰ patch patches × (starts_with patch.path path ≡ false))
unfolding skip_for_path
skip_for_path_iff path patches patch =
    let test = λ (q : PatchOperation). not (starts_with q.path path) in
    (
      λ m. let (listed, passes) = keep_sound test patches m in (listed, ground arith),
      λ (listed, other). keep_complete test patches listed (ground arith),
    )

-- Each path is at most the next one.
pub data IsAscending : List PatchOperation → Type 0 where
  no_patch : IsAscending []
  one_patch : (a : PatchOperation) → IsAscending (a ∷ [])
  before :
      {a b : PatchOperation} {bs : List PatchOperation}
      → leb_text a.path b.path ≡ true
      → IsAscending (b ∷ bs)
      → IsAscending (a ∷ b ∷ bs)

insert_below :
    (a b : PatchOperation) (bs : List PatchOperation)
    → leb_text b.path a.path ≡ true
    → IsAscending (b ∷ bs)
    → IsAscending (insert_patch a bs)
    → IsAscending (b ∷ insert_patch a bs)
insert_below a b [] low s t = before low t
insert_below a b (d ∷ ds) low (before le s) t = elim (Bool-cases (leb_text a.path d.path)) [
  | inl below ↦ rw below (before low (rw below at t))
  | inr above ↦ rw above (before le (rw above at t))
]

insert_patch-IsAscending :
    (a : PatchOperation) (bs : List PatchOperation)
    → IsAscending bs
    → IsAscending (insert_patch a bs)
insert_patch-IsAscending a [] s = one_patch a
insert_patch-IsAscending a (b ∷ bs) s = elim (Bool-cases (leb_text a.path b.path)) [
  | inl below ↦ rw below (before below s)
  | inr above ↦ rw above (
      insert_below a b bs (leb_text_total a.path b.path above) s
        (insert_patch-IsAscending a bs (tail s)))
]
  where
    tail : {x : PatchOperation} {xs : List PatchOperation} → IsAscending (x ∷ xs) → IsAscending xs
    tail (one_patch x) = no_patch
    tail (before le r) = r

insert_patch-Perm :
    (a : PatchOperation) (bs : List PatchOperation) → Perm (a ∷ bs) (insert_patch a bs)
insert_patch-Perm a [] = Perm.refl (a ∷ [])
insert_patch-Perm a (b ∷ bs) = elim (Bool-cases (leb_text a.path b.path)) [
  | inl below ↦ rw below (Perm.refl (a ∷ b ∷ bs))
  | inr above ↦ rw above (Perm.trans (Perm.swap b a bs) (Perm.cons b (insert_patch-Perm a bs)))
]

-- The patches of a diff are sent in ascending order of their paths, and none is lost or added.
pub sort_patches-IsAscending :
    (patches : List PatchOperation)
    → IsAscending (sort_patches patches) × Perm patches (sort_patches patches)
unfolding sort_patches
sort_patches-IsAscending [] = (no_patch, Perm.refl [])
sort_patches-IsAscending (a ∷ bs) =
    let (s, q) = sort_patches-IsAscending bs in
    (
      insert_patch-IsAscending a (sort_patches bs) s,
      Perm.trans (Perm.cons a q) (insert_patch-Perm a (sort_patches bs)),
    )
