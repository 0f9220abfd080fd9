-- ===== src/Core/Truncate.antt =====
-- `truncate_for_display` of src/core/formatting.cpp, over the bytes of a text.
use cpp_mirror_leech_bot.Prelude.{
  ℕ, zero, suc, ◌-◌, ◌%◌, ◌≤◌, ◌<◌, ◌≡◌, ◌⊎◌, inl, refl, Bool, true, false, [], ◌∷◌, ◌++◌, ◌&&◌,
  arith, leb, ltb, if◌then◌else◌, length, length-append, length-take, take, Bytes, bytes,
}

-- `(ch & 0xC0) == 0x80`: the byte continues a UTF-8 sequence.
unfoldable pub is_continuation : ℕ → Bool
is_continuation c = leb 128 (c % 256) && ltb (c % 256) 192

-- `text[i]`, read only inside the text.
unfoldable pub continues_at : Bytes → ℕ → Bool
unfolding is_continuation
continues_at [] i = false
continues_at (c ∷ text) zero = is_continuation c
continues_at (c ∷ text) (suc i) = continues_at text i

-- `while (cut > 0 && continuation(text[cut])) --cut;`
back_up : Bytes → ℕ → ℕ
back_up text zero = zero
back_up text (suc cut) =
    let rest = back_up text cut in if continues_at text (suc cut) then rest else suc cut

abbrev ellipsis : Bytes
ellipsis = b'.' ∷ b'.' ∷ b'.' ∷ []

unfoldable pub truncate_for_display : Bytes → ℕ → Bytes
unfolding back_up
truncate_for_display text max_bytes =
    if leb (length text) max_bytes
    then text
    else if leb max_bytes (length ellipsis)
    then take max_bytes ellipsis
    else take (back_up text (max_bytes - length ellipsis)) text ++ ellipsis

back_up-le : (text : Bytes) (cut : ℕ) → back_up text cut ≤ cut
unfolding back_up
back_up-le text zero = omega arith
back_up-le text (suc cut) = ground (arith, back_up-le text cut)

-- The cut falls on the first byte of a character, or at the start.
back_up_boundary :
    (text : Bytes) (cut : ℕ)
    → (back_up text cut ≡ 0) ⊎ (continues_at text (back_up text cut) ≡ false)
unfolding back_up
back_up_boundary text zero = inl refl
back_up_boundary text (suc cut) = ground (arith, back_up_boundary text cut)

-- No more is cut off than the rest of one character.
back_up_maximal :
    (text : Bytes) (cut i : ℕ) → back_up text cut < i → i ≤ cut → continues_at text i ≡ true
unfolding back_up
back_up_maximal text zero i lo hi = absurd (omega arith)
back_up_maximal text (suc cut) i lo hi = ground (arith, back_up_maximal text cut i)

-- The result is never longer than the limit, whatever the text and the limit.
pub length-truncate_for_display :
    (text : Bytes) (max_bytes : ℕ) → length (truncate_for_display text max_bytes) ≤ max_bytes
unfolding truncate_for_display
length-truncate_for_display text max_bytes = ground (
  arith,
  length-append (take (back_up text (max_bytes - 3)) text) ellipsis,
  length-take (back_up text (max_bytes - 3)) text,
  length-take max_bytes ellipsis,
  back_up-le text (max_bytes - 3),
)

-- A text over a limit of more than three bytes is cut before a character, never inside one, and
-- keeps every character that fits beside the dots: of the bytes between the cut and the room left,
-- all continue the character at the cut.
pub truncate_at_character :
    (text : Bytes) (max_bytes : ℕ)
    → 3 < max_bytes
    → max_bytes < length text
    → (cut : ℕ) × (truncate_for_display text max_bytes ≡ take cut text ++ bytes "...")
      × (cut ≤ max_bytes - 3)
      × ((cut ≡ 0) ⊎ (continues_at text cut ≡ false))
      × ((i : ℕ) → cut < i → i ≤ max_bytes - 3 → continues_at text i ≡ true)
unfolding truncate_for_display bytes
truncate_at_character text max_bytes h k = (
  back_up text (max_bytes - 3),
  ground arith,
  back_up-le text (max_bytes - 3),
  back_up_boundary text (max_bytes - 3),
  back_up_maximal text (max_bytes - 3),
)

-- A text within the limit is shown as it is.
pub truncate_short : (text : Bytes) (n : ℕ) → length text ≤ n → truncate_for_display text n ≡ text
unfolding truncate_for_display
truncate_short text n h = ground arith
