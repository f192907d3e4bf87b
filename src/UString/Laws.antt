-- ===== src/UString/Laws.antt =====
-- What the growable string (libs/LSO_LIB/string_utils.c) holds.
use lso_baldini.CString.{Bytes, c_string}
use lso_baldini.Common.{
  ℕ, ◌+◌, ◌-◌, ◌≤◌, ◌<◌, ◌≡◌, refl, ap, ◌∙◌, sym, List, [], ◌∷◌, ◌++◌, ◌==◌, length, take, drop,
  replicate, All, false, arith, length-append, length-take, length-replicate, take-append,
  take-take, take-length, drop-all, append_assoc, append_nil, take-all, le-length-take, length-drop,
  le_or_gt, inl, inr,
}
use lso_baldini.Memory.{mu_realloc, max_request}
use lso_baldini.Run.{ret}
use lso_baldini.UString.{UString, resize, copy_at, su_realloc, su_string_extend, su_append_chars}

-- The string holds `text`; the byte behind it need not be set.
pub record IsText (s : UString) (text : Bytes) : Type 0 where
  pub last : ℕ
  pub held : s.buffer ≡ text ++ (last ∷ [])
  pub counted : s.len ≡ length text

abbrev pub HasNoNul : Bytes → Type 0
HasNoNul text = All (λ b. (b == 0) ≡ false) text

pub c_string-append : (text rest : Bytes) → HasNoNul text → c_string (text ++ (0 ∷ rest)) ≡ text
unfolding c_string
c_string-append [] rest h = refl
c_string-append (b ∷ text) rest h = rw (h.0) (ap (λ bs. b ∷ bs) (c_string-append text rest h.1))

pub length-copy_at :
    (i : ℕ) (bytes old : Bytes)
    → i + length bytes ≤ length old
    → length (copy_at i bytes old) ≡ length old
length-copy_at i bytes old h = omega (
  arith,
  length-append (take i old) (bytes ++ drop (i + length bytes) old),
  length-append bytes (drop (i + length bytes) old),
  length-take i old (omega (arith, h)),
  length-drop (i + length bytes) old,
  h,
)

-- What stands before the copy stays.
pub take-copy_at :
    (n i : ℕ) (bytes old : Bytes)
    → n ≤ i
    → i ≤ length old
    → take n (copy_at i bytes old) ≡ take n old
take-copy_at n i bytes old h k =
    take-append n (take i old) (bytes ++ drop (i + length bytes) old)
      (le-length-take n i old h (omega (arith, h, k)))
    ∙ take-take n i old h

module _ (junk : ℕ) where
  pub length-resize : (n : ℕ) (old : Bytes) → length (resize junk n old) ≡ n
  length-resize n old = elim (le_or_gt n (length old)) [
    | inl h ↦ omega (
      arith,
      length-append (take n old) (replicate (n - length old) junk),
      length-replicate {A = ℕ} (n - length old) junk,
      length-take n old h,
      h,
    )
    | inr h ↦ omega (
      arith,
      length-append (take n old) (replicate (n - length old) junk),
      length-replicate {A = ℕ} (n - length old) junk,
      ap (λ (xs : List ℕ). length xs) (take-all n old (omega (arith, h))),
      h,
    )
  ]

  pub take-resize :
      (m n : ℕ) (old : Bytes) → m ≤ n → m ≤ length old → take m (resize junk n old) ≡ take m old
  take-resize m n old h k =
      take-append m (take n old) (replicate (n - length old) junk) (le-length-take m n old h k)
      ∙ take-take m n old h

  text-take : (s : UString) (text : Bytes) → IsText s text → take (length text) s.buffer ≡ text
  text-take s text h =
      ap (take (length text)) h.held
      ∙ take-append (length text) text (h.last ∷ []) (omega arith)
      ∙ take-length text

  text-length : (s : UString) (text : Bytes) → IsText s text → length s.buffer ≡ length text + 1
  text-length s text h =
      omega (arith, ap (λ (xs : List ℕ). length xs) h.held, length-append text (h.last ∷ []))

  -- A string that is extended keeps its text, and has room behind it.
  realloc_lem :
      (s : UString) (text : Bytes) (n : ℕ)
      → IsText s text
      → length text ≤ n
      → n < max_request
      → (t : UString) × (su_realloc junk s n ≡ ret t)
        × (take (length text) t.buffer ≡ text)
        × (length t.buffer ≡ n + 1)
        × (t.len ≡ n)
  unfolding su_realloc mu_realloc
  realloc_lem s text n h room small =
      let old = resize junk (n + 1) s.buffer in
      let size : length old ≡ n + 1 = length-resize (n + 1) s.buffer in
      (
        record { buffer = copy_at n (0 ∷ []) old; len = n },
        ground (arith, small),
        take-copy_at (length text) n (0 ∷ []) old room (omega (arith, size))
            ∙ take-resize (length text) (n + 1) s.buffer (omega (arith, room))
                (omega (arith, text-length s text h))
            ∙ text-take s text h,
        length-copy_at n (0 ∷ []) old (omega (arith, size)) ∙ size,
        refl,
      )

  -- What `strcpy` makes of a buffer that ends where the copy does.
  copy_text :
      (text literal : Bytes) (old : Bytes)
      → take (length text) old ≡ text
      → length old ≡ length text + length literal + 1
      → copy_at (length text) (literal ++ (0 ∷ [])) old ≡ (text ++ literal) ++ (0 ∷ [])
  copy_text text literal old same size =
      let n = length text + length (literal ++ (0 ∷ [])) in
      let gone : drop n old ≡ [] =
        drop-all n old (omega (arith, size, length-append literal (0 ∷ []))) in
      ap (λ (xs : List ℕ). xs ++ ((literal ++ (0 ∷ [])) ++ drop n old)) same
      ∙ ap (λ (xs : List ℕ). text ++ ((literal ++ (0 ∷ [])) ++ xs)) gone
      ∙ ap (λ (xs : List ℕ). text ++ xs) (append_nil (literal ++ (0 ∷ [])))
      ∙ sym (append_assoc text literal (0 ∷ []))

  -- The string after `strcpy` into one of the right size.
  copied :
      (s t : UString) (text literal : Bytes)
      → IsText s text
      → take (length text) t.buffer ≡ text
      → length t.buffer ≡ length text + length literal + 1
      → t.len ≡ length text + length literal
      → let u = record t { buffer = copy_at s.len (literal ++ (0 ∷ [])) t.buffer } in
        (u.buffer ≡ (text ++ literal) ++ (0 ∷ [])) × IsText u (text ++ literal)
  copied s t text literal h same size len =
      let e =
        ap (λ i. copy_at i (literal ++ (0 ∷ [])) t.buffer) h.counted
        ∙ copy_text text literal t.buffer same size in
      (e, record { last = 0; held = e; counted = omega (arith, len, length-append text literal) })

  -- A string that can be allocated, with another behind it, holds both texts, one after the other.
  -- The buffer ends with a NUL then, whatever stood in the bytes that were never set.
  pub su_append_chars_lem :
      (s : UString) (text literal : Bytes)
      → IsText s text
      → length text + length literal < max_request
      → (t : UString) × (su_append_chars junk s literal ≡ ret t)
        × (t.buffer ≡ (text ++ literal) ++ (0 ∷ []))
        × IsText t (text ++ literal)
  unfolding su_append_chars su_string_extend
  su_append_chars_lem s text [] h small =
      let size : length s.buffer ≡ length text + 0 + 1 = omega (arith, text-length s text h) in
      let (e, holds) = copied s s text [] h (text-take s text h) size (omega (arith, h.counted)) in
      (record s { buffer = copy_at s.len (0 ∷ []) s.buffer }, refl, e, holds)
  su_append_chars_lem s text (b ∷ literal) h small =
      let (t, e, same, size, len) =
        realloc_lem s text (s.len + length (b ∷ literal)) h (omega (arith, h.counted))
          (omega (arith, h.counted, small)) in
      let (e', holds) =
        copied s t text (b ∷ literal) h same (omega (arith, size, h.counted))
          (omega (arith, len, h.counted)) in
      (
        record t { buffer = copy_at s.len ((b ∷ literal) ++ (0 ∷ [])) t.buffer },
        ground (arith, e),
        e',
        holds,
      )
