-- ===== src/Program/Paths.antt =====
-- The path of an entry of a folder (src/dir_utils.c).
use lso_baldini.Client.Eviction.{slash, saved_path}
use lso_baldini.Common.{
  ℕ, ◌+◌, ◌<◌, ◌≡◌, refl, ap, ◌∙◌, [], ◌∷◌, ◌++◌, length, length-append, arith, append_assoc,
  replicate,
}
use lso_baldini.CString.{Bytes, c_string}
use lso_baldini.Memory.{max_request, mu_malloc, mu_realloc}
use lso_baldini.Program.{mu_clone}
use lso_baldini.Program.Folders.{entry_path}
use lso_baldini.Run.{ret}
use lso_baldini.UString.Laws.{
  IsText, HasNoNul, c_string-append, su_append_chars_lem, length-copy_at, length-resize,
}
use lso_baldini.UString.{
  UString, su_string_from_literal, su_append_chars, su_realloc, resize, copy_at,
}

HasNoNul-append : (a b : Bytes) → HasNoNul a → HasNoNul b → HasNoNul (a ++ b)
HasNoNul-append [] b h k = k
HasNoNul-append (x ∷ a) b (h, hs) k = (h, HasNoNul-append a b hs k)

one_byte : (bs : Bytes) → length bs ≡ 1 → (x : ℕ) × (bs ≡ x ∷ [])
one_byte [] h = absurd (omega (arith, h))
one_byte (x ∷ []) h = (x, refl)
one_byte (x ∷ y ∷ bs) h = absurd (omega (arith, h))

pub clone_lem : (s : Bytes) → length s < max_request → mu_clone s ≡ ret s
unfolding mu_clone mu_malloc
clone_lem s h = ground arith

module _ (junk : ℕ) where
  -- A string that is emptied.
  emptied_lem : (s : UString) → (t : UString) × (su_realloc junk s 0 ≡ ret t) × IsText t []
  unfolding su_realloc mu_realloc
  emptied_lem s =
      let size = length-resize junk 1 s.buffer in
      let (x, e) =
        one_byte (copy_at 0 (0 ∷ []) (resize junk 1 s.buffer))
          (length-copy_at 0 (0 ∷ []) (resize junk 1 s.buffer) (omega (arith, size)) ∙ size) in
      (
        record { buffer = copy_at 0 (0 ∷ []) (resize junk 1 s.buffer); len = 0 },
        refl,
        record { last = x; held = e; counted = refl },
      )

  -- The first string of `du_getfilepaths_from_dir`.
  pub from_literal_lem : (t : UString) × (su_string_from_literal junk [] ≡ ret t) × IsText t []
  unfolding su_string_from_literal mu_malloc replicate
  from_literal_lem = (
    record { buffer = junk ∷ []; len = 0 },
    refl,
    record { last = junk; held = refl; counted = refl },
  )

  path_of_calls :
      (s s₁ s₂ s₃ t : UString) (dirpath name path : Bytes)
      → su_append_chars junk s dirpath ≡ ret s₁
      → su_append_chars junk s₁ slash ≡ ret s₂
      → su_append_chars junk s₂ name ≡ ret s₃
      → su_realloc junk s₃ 0 ≡ ret t
      → c_string s₃.buffer ≡ path
      → mu_clone path ≡ ret path
      → entry_path junk s dirpath name ≡ ret (path, t)
  unfolding entry_path
  path_of_calls s s₁ s₂ s₃ t dirpath name path e₁ e₂ e₃ e₄ whole cloned =
      let saved : saved_path junk s dirpath name ≡ ret s₃ =
        unfold saved_path in ground (arith, e₁, e₂, e₃) in
      ground (arith, saved, e₄, whole, cloned)

  -- An entry's path is the folder's, a slash and the name; the string is empty again.
  pub entry_path_lem :
      (s : UString) (dirpath name : Bytes)
      → IsText s []
      → HasNoNul dirpath
      → HasNoNul name
      → length dirpath + length name + 1 < max_request
      → (t : UString) × (entry_path junk s dirpath name ≡ ret (dirpath ++ (slash ++ name), t))
        × IsText t []
  unfolding entry_path saved_path
  entry_path_lem s dirpath name h kd kn small =
      let (s₁, e₁, _, h₁) = su_append_chars_lem junk s [] dirpath h (omega (arith, small)) in
      let (s₂, e₂, _, h₂) = su_append_chars_lem junk s₁ dirpath slash h₁ (omega (arith, small)) in
      let (s₃, e₃, held, h₃) =
        su_append_chars_lem junk s₂ (dirpath ++ slash) name h₂
          (omega (arith, small, length-append dirpath slash)) in
      let (t, e₄, h₄) = emptied_lem s₃ in
      let text = (dirpath ++ slash) ++ name in
      let whole : c_string s₃.buffer ≡ dirpath ++ (slash ++ name) =
        ap c_string held
        ∙ c_string-append text [] (
            HasNoNul-append (dirpath ++ slash) name (HasNoNul-append dirpath slash kd (refl, tt))
              kn)
        ∙ append_assoc dirpath slash name in
      let cloned =
        clone_lem (dirpath ++ (slash ++ name))
          (omega (arith, small, length-append dirpath (slash ++ name))) in
      (
        t,
        path_of_calls s s₁ s₂ s₃ t dirpath name (dirpath ++ (slash ++ name)) e₁ e₂ e₃ e₄ whole
            cloned,
        h₄,
      )
