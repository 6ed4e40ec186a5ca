-- ===== src/Generation/Messages/Fenced.antt =====
-- The fences that a reader sees in a user message of generation.py, section by section.
use mod_playerbot_llm.Prelude.{
  and_false, append_assoc, all-append, ℕ, ◌≡◌, refl, ◌∙◌, sym, ap, Bool, true, false, not, ◌||◌,
  List, [], ◌∷◌, ◌++◌, all, keep_if, keep_if-append, arith, ◌==◌,
}
use mod_playerbot_llm.Prelude.Text.{Text, codes}
use mod_playerbot_llm.Protocol.{is_space, is_empty}
use mod_playerbot_llm.Generation.Memory.{rstrip}
use mod_playerbot_llm.Generation.Fences.{
  is_line_break, lines_of, splitlines, join_lines, neutralised, fenced, fence_length,
}
use mod_playerbot_llm.Generation.Fences.Plain.{
  is_plain, is_unbroken, unbroken_plain, neutralised-plain, join_lines-plain, drop_line_feeds-plain,
  plain_both,
}
use mod_playerbot_llm.Generation.Fences.Seen.{
  is_marker, lines_of-append, lines_of-unbroken_line, neutralised-quiet,
}
use mod_playerbot_llm.Generation.Messages.{Section, fenced_all, message_of}

abbrev pub first_fence : Text → Text
first_fence heading = codes "=== UNTRUSTED " ++ (heading ++ codes " BEGINS ===")

abbrev pub last_fence : Text → Text
last_fence heading = codes "=== UNTRUSTED " ++ (heading ++ codes " ENDS ===")

-- Two fences for each section, in order.
abbrev pub fences_of : List Section → List Text
fences_of [] = []
fences_of ((heading, body) ∷ sections) =
    first_fence heading ∷ last_fence heading ∷ fences_of sections

abbrev pub has_headings : List Section → Bool
has_headings = all (λ section. is_unbroken section.0)

-- A text that ends in a fence and a line feed.
pub record EndsFenced (text : Text) : Type 0 where
  pub before : Text
  pub ends : text ≡ before ++ 61 ∷ 10 ∷ []

pub ends_after : (line text : Text) → EndsFenced text → EndsFenced (line ++ 10 ∷ text)
ends_after line text e = record {
  before = line ++ 10 ∷ e.before;
  ends = ap (λ rest. line ++ 10 ∷ rest) e.ends ∙ sym (append_assoc line (10 ∷ e.before) _);
}

ends_last : (heading : Text) → EndsFenced (last_fence heading ++ 10 ∷ [])
ends_last heading = record {
  before = codes "=== UNTRUSTED " ++ (heading ++ codes " ENDS ==");
  ends =
      ap (λ rest. codes "=== UNTRUSTED " ++ rest)
        (append_assoc heading (codes " ENDS ===") (10 ∷ [])
          ∙ sym (append_assoc heading (codes " ENDS ==") (61 ∷ 10 ∷ [])));
}

not_empty : (xs : Text) → is_empty (xs ++ 61 ∷ []) ≡ false
not_empty [] = refl
not_empty (x ∷ xs) = refl

rstrip_keeps : (before : Text) → rstrip (before ++ 61 ∷ 10 ∷ []) ≡ before ++ 61 ∷ []
rstrip_keeps [] = refl
rstrip_keeps (c ∷ cs) = rw (rstrip_keeps cs) (rw (not_empty cs, and_false (is_space c)) refl)

same_lines : (before : Text) → lines_of (before ++ 61 ∷ 10 ∷ []) ≡ lines_of (before ++ 61 ∷ [])
unfolding is_line_break
same_lines [] = refl
same_lines (c ∷ cs) = rw (same_lines cs) refl

plain_start : (xs ys : Text) → is_plain (xs ++ ys) ≡ true → is_plain xs ≡ true
plain_start xs ys h =
    let h' = rw (all-append (λ c. c == 10 || not (is_line_break c)) xs ys) at h in ground arith

tail_unbroken :
    (heading tail : Text)
    → is_unbroken heading ≡ true
    → is_unbroken tail ≡ true
    → is_unbroken (codes "=== UNTRUSTED " ++ (heading ++ tail)) ≡ true
unfolding is_line_break
tail_unbroken heading tail h t =
    rw (all-append (λ c. not (is_line_break c)) heading tail) (rw (h, t) refl)

first_unbroken :
    (heading : Text) → is_unbroken heading ≡ true → is_unbroken (first_fence heading) ≡ true
unfolding is_line_break
first_unbroken heading h = tail_unbroken heading (codes " BEGINS ===") h refl

last_unbroken :
    (heading : Text) → is_unbroken heading ≡ true → is_unbroken (last_fence heading) ≡ true
unfolding is_line_break
last_unbroken heading h = tail_unbroken heading (codes " ENDS ===") h refl

sign_plain : is_plain (61 ∷ []) ≡ true
unfolding is_line_break
sign_plain = refl

pub section_plain :
    (is_word : ℕ → Bool) (sections : List Section)
    → has_headings sections ≡ true
    → all is_plain (fenced_all is_word sections) ≡ true
unfolding fenced
section_plain is_word [] h = refl
section_plain is_word ((heading, body) ∷ sections) h =
    let unbroken : is_unbroken heading ≡ true = ground arith in
    let rest = section_plain is_word sections (ground arith) in
    let first = unbroken_plain (first_fence heading) (first_unbroken heading unbroken) in
    let last = unbroken_plain (last_fence heading) (last_unbroken heading unbroken) in
    rw (first, neutralised-plain is_word body, last) rest

module _ (is_word : ℕ → Bool) (space_apart : is_word 32 ≡ false) where
  fence_marks : (tail : Text) → is_marker is_word (codes "=== UNTRUSTED " ++ tail) ≡ true
  unfolding fence_length
  fence_marks tail = rw space_apart refl

  module _ (line_feed_apart : is_word 10 ≡ false) where
    abbrev pub shown : Text → List Text
    shown text = keep_if (is_marker is_word) (lines_of text)

    pub shown_after :
        (line text : Text) → shown (line ++ 10 ∷ text) ≡ shown (line ++ 10 ∷ []) ++ shown text
    shown_after line text =
        rw (lines_of-append line text)
          (keep_if-append (is_marker is_word) (lines_of (line ++ 10 ∷ [])) (lines_of text))

    shown_fence :
        (tail : Text)
        → is_unbroken (codes "=== UNTRUSTED " ++ tail) ≡ true
        → shown ((codes "=== UNTRUSTED " ++ tail) ++ 10 ∷ [])
          ≡ (codes "=== UNTRUSTED " ++ tail) ∷ []
    shown_fence tail h =
        rw (lines_of-unbroken_line (codes "=== UNTRUSTED " ++ tail) h) (rw (fence_marks tail) refl)

    pub shown_blank : (text : Text) → shown (10 ∷ text) ≡ shown text
    unfolding is_line_break fence_length
    shown_blank text = refl

    shown_section :
        (heading body rest : Text)
        → is_unbroken heading ≡ true
        → shown (
            first_fence heading
            ++ 10 ∷ (neutralised is_word body ++ 10 ∷ (last_fence heading ++ 10 ∷ rest)))
          ≡ first_fence heading ∷ last_fence heading ∷ shown rest
    shown_section heading body rest h =
        let first = shown_fence (heading ++ codes " BEGINS ===") (first_unbroken heading h) in
        let last = shown_fence (heading ++ codes " ENDS ===") (last_unbroken heading h) in
        shown_after (first_fence heading) _
        ∙ (ap
              (λ marks.
                marks ++ shown (neutralised is_word body ++ 10 ∷ (last_fence heading ++ 10 ∷ rest)))
              first
            ∙ ap (λ marks. first_fence heading ∷ marks)
                (shown_after (neutralised is_word body) _
                  ∙ (ap (λ marks. marks ++ shown (last_fence heading ++ 10 ∷ rest))
                        (neutralised-quiet is_word line_feed_apart body)
                      ∙ (shown_after (last_fence heading) rest
                          ∙ ap (λ marks. marks ++ shown rest) last))))

    pub all_shown :
        (first : Section) (sections : List Section)
        → has_headings (first ∷ sections) ≡ true
        → shown (join_lines (fenced_all is_word (first ∷ sections))) ≡ fences_of (first ∷ sections)
    unfolding join_lines fenced
    all_shown (heading, body) [] h = shown_section heading body [] (ground arith)
    all_shown (heading, body) (next ∷ sections) h =
        shown_section heading body (10 ∷ join_lines (fenced_all is_word (next ∷ sections)))
          (ground arith)
        ∙ ap (λ marks. first_fence heading ∷ last_fence heading ∷ marks)
            (shown_blank (join_lines (fenced_all is_word (next ∷ sections)))
              ∙ all_shown next sections (ground arith))

    pub all_end :
        (first : Section) (sections : List Section)
        → EndsFenced (join_lines (fenced_all is_word (first ∷ sections)))
    unfolding join_lines fenced
    all_end (heading, body) [] =
        ends_after (first_fence heading) _
          (ends_after (neutralised is_word body) _ (ends_last heading))
    all_end (heading, body) (next ∷ sections) = ends_after (first_fence heading) _ (
        ends_after (neutralised is_word body) _
          (ends_after (last_fence heading) _ (ends_after [] _ (all_end next sections))))

    -- Trailing white space is one line feed.
    pub message_shown :
        (lines : List Text)
        → all is_plain lines ≡ true
        → EndsFenced (join_lines lines)
        → keep_if (is_marker is_word) (splitlines (message_of is_word lines))
          ≡ shown (join_lines lines)
    unfolding splitlines
    message_shown lines plain e =
        let text : Text = join_lines lines in
        let whole : is_plain (e.before ++ 61 ∷ 10 ∷ []) ≡ true =
          rw e.ends at (join_lines-plain lines plain) in
        let start : is_plain (e.before ++ 61 ∷ []) ≡ true =
          plain_both e.before (61 ∷ []) (plain_start e.before _ whole) sign_plain in
        rw (e.ends, rstrip_keeps e.before, drop_line_feeds-plain _ start)
          (rw (same_lines e.before) refl)
