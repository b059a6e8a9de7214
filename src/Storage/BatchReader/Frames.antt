-- ===== src/Storage/BatchReader/Frames.antt =====
-- Lines behind line feeds, as vigilo/src/contracts/case_storage/codec.rs writes and splits them.
use agent_vigilo.Prelude.{
  ℕ, ◌-◌, ◌≡◌, refl, sym, ap, ◌∙◌, inl, inr, true, false, some, List, [], ◌∷◌, ◌++◌, arith, ltb,
  ◌==◌, ==_refl, Bool-cases, length, last?, All,
}
use mathlib.Core.List.{append_assoc, append-nil}
use agent_vigilo.Storage.Batch.{line_feed, write_capped, write_pieces, bytes_eq}
use agent_vigilo.Storage.BatchReader.{before_line_feed, split_lines, without_last}

-- No byte of a line is a line feed.
abbrev pub IsLine : List ℕ → Type 0
IsLine line = All (λ c. (c == line_feed) ≡ false) line

unfoldable pub concat : List (List ℕ) → List ℕ
concat [] = []
concat (xs ∷ xss) = xs ++ concat xss

-- Every line with a line feed behind it.
unfoldable pub frames : List (List ℕ) → List ℕ
frames [] = []
frames (line ∷ lines) = line ++ line_feed ∷ frames lines

-- A first line and others, with line feeds between them.
unfoldable joined : List ℕ → List (List ℕ) → List ℕ
joined line [] = line
joined line (next ∷ lines) = line ++ line_feed ∷ joined next lines

frames-joined :
    (line : List ℕ) (lines : List (List ℕ))
    → frames (line ∷ lines) ≡ joined line lines ++ line_feed ∷ []
unfolding frames joined
frames-joined line [] = refl
frames-joined line (next ∷ lines) =
    ap (λ rest. line ++ line_feed ∷ rest) (frames-joined next lines)
    ∙ sym (append_assoc line (line_feed ∷ joined next lines) (line_feed ∷ []))

pub last?-snoc : (xs : List ℕ) (x : ℕ) → last? (xs ++ x ∷ []) ≡ some x
last?-snoc [] x = refl
last?-snoc (y ∷ []) x = refl
last?-snoc (y ∷ z ∷ xs) x = last?-snoc (z ∷ xs) x

without_last-snoc : (xs : List ℕ) (x : ℕ) → without_last (xs ++ x ∷ []) ≡ xs
unfolding without_last
without_last-snoc [] x = refl
without_last-snoc (y ∷ []) x = refl
without_last-snoc (y ∷ z ∷ xs) x = ap (λ rest. y ∷ rest) (without_last-snoc (z ∷ xs) x)

split_line : (line : List ℕ) → IsLine line → split_lines line ≡ line ∷ []
unfolding split_lines
split_line [] u = refl
split_line (c ∷ line) (h, u) = rw (split_line line u, h) refl

split_first :
    (line rest : List ℕ)
    → IsLine line
    → ((next : List ℕ) (lines : List (List ℕ))
        → split_lines rest ≡ next ∷ lines
        → split_lines (line ++ line_feed ∷ rest) ≡ line ∷ next ∷ lines)
unfolding split_lines
split_first [] rest u next lines h = rw h refl
split_first (c ∷ line) rest (k, u) next lines h = rw (split_first line rest u next lines h, k) refl

split_lines-joined :
    (line : List ℕ) (lines : List (List ℕ))
    → IsLine line
    → All IsLine lines
    → split_lines (joined line lines) ≡ line ∷ lines
unfolding joined
split_lines-joined line [] u us = split_line line u
split_lines-joined line (next ∷ lines) u (v, us) =
    split_first line (joined next lines) u next lines (split_lines-joined next lines v us)

-- The lines of framed bytes are found again.
pub split_lines-frames :
    (line : List ℕ) (lines : List (List ℕ))
    → IsLine line
    → All IsLine lines
    → split_lines (without_last (frames (line ∷ lines))) ≡ line ∷ lines
split_lines-frames line lines u us =
    ap (λ b. split_lines (without_last b)) (frames-joined line lines)
    ∙ ap split_lines (without_last-snoc (joined line lines) line_feed)
    ∙ split_lines-joined line lines u us

pub last?-frames :
    (line : List ℕ) (lines : List (List ℕ)) → last? (frames (line ∷ lines)) ≡ some line_feed
last?-frames line lines =
    ap last? (frames-joined line lines) ∙ last?-snoc (joined line lines) line_feed

pub before_line_feed-line :
    (line rest : List ℕ) → IsLine line → before_line_feed (line ++ line_feed ∷ rest) ≡ some line
unfolding before_line_feed
before_line_feed-line [] rest u = refl
before_line_feed-line (c ∷ line) rest (h, u) = rw (before_line_feed-line line rest u, h) refl

pub frames-append :
    (lines more : List (List ℕ)) → frames (lines ++ more) ≡ frames lines ++ frames more
unfolding frames
frames-append [] more = refl
frames-append (line ∷ lines) more =
    ap (λ rest. line ++ line_feed ∷ rest) (frames-append lines more)
    ∙ sym (append_assoc line (line_feed ∷ frames lines) (frames more))

-- What the capped writer holds at the end is what was written.
pub write_pieces-concat :
    (limit : ℕ) (bytes : List ℕ) (pieces : List (List ℕ)) {written : List ℕ}
    → write_pieces limit bytes pieces ≡ some written
    → written ≡ bytes ++ concat pieces
unfolding write_pieces write_capped concat
write_pieces-concat limit bytes [] {written} h =
    let same : bytes ≡ written = ground arith in sym same ∙ sym (append-nil bytes)
write_pieces-concat limit bytes (piece ∷ pieces) h =
    elim (Bool-cases (ltb (limit - length bytes) (length piece))) [
      | inl large ↦ absurd (ground arith)
      | inr small ↦
          write_pieces-concat limit (bytes ++ piece) pieces
            (rw (write_pieces, write_capped, small) at h)
          ∙ append_assoc bytes piece (concat pieces)
    ]

pub bytes_eq_refl : (bytes : List ℕ) → bytes_eq bytes bytes ≡ true
unfolding bytes_eq
bytes_eq_refl [] = refl
bytes_eq_refl (x ∷ xs) = rw (==_refl x) (bytes_eq_refl xs)
