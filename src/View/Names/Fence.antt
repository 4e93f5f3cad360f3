-- ===== src/View/Names/Fence.antt =====
-- The name that an archive entry is given, and the directory that it is written into.
use mathlib.Core.Path.{subst}
use mathlib.Core.List.{append-nil, append_assoc}
use shigoku.Match.Titles.{is_empty}
use shigoku.Common.{
  ℕ, ◌≤◌, Bytes, List, ◌≢◌, All, length, [], ◌≡◌, ◌∷◌, Bool-cases, ◌<◌, false, ◌++◌, some, bytes_eq,
  ◌||◌, ◌==◌, All-append, arith, inl, codes, inr, ap, length-append, refl, bytes_eq_sound, ◌∙◌,
}
use shigoku.View.Names.{
  sanitize_entry_name, walk_name, visit_segment, join, pop_back, holds_control, to_slashes,
  join_stack,
}

-- A byte that is neither a control nor a separator.
abbrev pub IsPlain : ℕ → Type 0
IsPlain c = (0x20 ≤ c) × (c ≢ 0x7F) × (c ≢ 0x2F) × (c ≢ 0x5C)

-- A name of a file right inside a directory, never the directory itself or its parent.
pub record IsFlat (name : Bytes) : Type 0 where
  pub plain : All IsPlain name
  pub not_empty : is_empty name ≡ false
  pub not_here : bytes_eq name (codes ".") ≡ false
  pub not_parent : bytes_eq name (codes "..") ≡ false

abbrev IsClean : ℕ → Type 0
IsClean c = (0x20 ≤ c) × (c ≢ 0x7F) × (c ≢ 0x5C)

to_slash-IsClean : (raw : Bytes) → holds_control raw ≡ false → All IsClean (to_slashes raw)
unfolding holds_control to_slashes
to_slash-IsClean [] h = tt
to_slash-IsClean (c ∷ s) h = (ground arith, to_slash-IsClean s (ground arith))

pop_back-IsFlat : (stack : List Bytes) → All IsFlat stack → All IsFlat (pop_back stack)
unfolding pop_back
pop_back-IsFlat [] h = tt
pop_back-IsFlat (s ∷ []) h = tt
pop_back-IsFlat (s ∷ t ∷ stack) h = (h.0, pop_back-IsFlat (t ∷ stack) h.1)

visit_segment-IsFlat :
    (stack : List Bytes) (seg : Bytes)
    → All IsFlat stack
    → All IsPlain seg
    → All IsFlat (visit_segment stack seg)
unfolding visit_segment
visit_segment-IsFlat stack seg h plain =
    elim (Bool-cases (is_empty seg || bytes_eq seg (codes "."))) [
      | inl skip ↦ rw skip h
      | inr kept ↦ elim (Bool-cases (bytes_eq seg (codes ".."))) [
        | inl up ↦ rw (kept, up) (pop_back-IsFlat stack h)
        | inr down ↦
            rw (kept, down)
              (All-append IsFlat stack (seg ∷ []) h (
                record {
                  plain = plain;
                  not_empty = ground arith;
                  not_here = ground arith;
                  not_parent = down;
                },
                tt,
              ))
      ]
    ]

walk_name-IsFlat :
    (stack : List Bytes) (seg s : Bytes)
    → All IsFlat stack
    → All IsPlain seg
    → All IsClean s
    → All IsFlat (walk_name stack seg s)
unfolding walk_name
walk_name-IsFlat stack seg [] h plain clean = visit_segment-IsFlat stack seg h plain
walk_name-IsFlat stack seg (c ∷ s) h plain clean = elim (Bool-cases (c == 0x2F)) [
  | inl slash ↦ rw slash (
      walk_name-IsFlat (visit_segment stack seg) [] s (visit_segment-IsFlat stack seg h plain) tt
        clean.1)
  | inr other ↦ rw other (
      walk_name-IsFlat stack (seg ++ c ∷ []) s h
        (All-append IsPlain seg (c ∷ []) plain (ground arith, tt)) clean.1)
]

join-IsPlain :
    (s : Bytes) (stack : List Bytes) → All IsFlat (s ∷ stack) → All IsPlain (join (s ∷ stack))
unfolding join
join-IsPlain s [] h = h.0.plain
join-IsPlain s (t ∷ stack) h =
    All-append IsPlain s (0x5F ∷ join (t ∷ stack)) h.0.plain (omega arith, join-IsPlain t stack h.1)

pub bytes_eq-length : (s t : Bytes) → length t < length s → bytes_eq s t ≡ false
bytes_eq-length s t h = elim (Bool-cases (bytes_eq s t)) [
  | inl same ↦ absurd (omega (arith, ap length (bytes_eq_sound s t same)))
  | inr other ↦ other
]

join-pos : (s : Bytes) (stack : List Bytes) → All IsFlat (s ∷ stack) → 0 < length (join (s ∷ stack))
unfolding join
join-pos [] stack h = absurd (cc (h.0.not_empty))
join-pos (c ∷ s) [] h = omega arith
join-pos (c ∷ s) (t ∷ stack) h = omega arith

-- Two segments and the '_' between them are longer than "..".
join-long :
    (s t : Bytes) (stack : List Bytes)
    → All IsFlat (s ∷ t ∷ stack)
    → 2 < length (join (s ∷ t ∷ stack))
unfolding join
join-long s t stack h = omega (
  arith,
  length-append s (0x5F ∷ join (t ∷ stack)),
  join-pos t stack h.1,
  join-pos s [] (h.0, tt),
)

join-IsFlat : (s : Bytes) (stack : List Bytes) → All IsFlat (s ∷ stack) → IsFlat (join (s ∷ stack))
join-IsFlat s [] h = unfold join in h.0
join-IsFlat s (t ∷ stack) h =
    let long = join-long s t stack h in
    record {
      plain = join-IsPlain s (t ∷ stack) h;
      not_empty = unfold join in ground arith;
      not_here = bytes_eq-length (join (s ∷ t ∷ stack)) (codes ".") (omega arith);
      not_parent = bytes_eq-length (join (s ∷ t ∷ stack)) (codes "..") (omega arith);
    }

clean-no_control : (s : Bytes) → All IsPlain s → holds_control s ≡ false
unfolding holds_control
clean-no_control [] h = refl
clean-no_control (c ∷ s) h = ground (arith, clean-no_control s h.1)

to_slash-same : (s : Bytes) → All IsPlain s → to_slashes s ≡ s
unfolding to_slashes
to_slash-same [] h = refl
to_slash-same (c ∷ s) h = ground (arith, to_slash-same s h.1)

walk_name-one :
    (stack : List Bytes) (seg s : Bytes)
    → All IsPlain s
    → walk_name stack seg s ≡ visit_segment stack (seg ++ s)
unfolding walk_name
walk_name-one stack seg [] h = rw (append-nil)
walk_name-one stack seg (c ∷ s) h =
    let other : (c == 0x2F) ≡ false = ground arith in
    rw other (
      walk_name-one stack (seg ++ c ∷ []) s h.1
      ∙ ap (visit_segment stack) (append_assoc seg (c ∷ []) s))

visit_segment-flat : (name : Bytes) → IsFlat name → visit_segment [] name ≡ name ∷ []
unfolding visit_segment
visit_segment-flat name h = rw (h.not_empty, h.not_here, h.not_parent) refl

IsFlat-fixed : (name : Bytes) → IsFlat name → sanitize_entry_name name ≡ some name
unfolding sanitize_entry_name join
IsFlat-fixed name h = rw (
  clean-no_control name h.plain,
  to_slash-same name h.plain,
  walk_name-one [] [] name h.plain,
  visit_segment-flat name h,
)

join_stack-IsFlat :
    (stack : List Bytes) (name : Bytes)
    → All IsFlat stack
    → join_stack stack ≡ some name
    → IsFlat name
join_stack-IsFlat [] name flat h = absurd (cc)
join_stack-IsFlat (s ∷ stack) name flat h = subst IsFlat (ground arith) (join-IsFlat s stack flat)

-- Whatever name an archive gives to an entry, the name that the entry is extracted under names a file
-- right inside the directory: no separator of either kind, no control byte, not empty, and neither
-- "." nor "..". Such a name is kept as it is.
pub sanitize_entry_name-IsFlat :
    (raw name : Bytes)
    → sanitize_entry_name raw ≡ some name
    → IsFlat name × (sanitize_entry_name name ≡ some name)
unfolding sanitize_entry_name
sanitize_entry_name-IsFlat raw name h = elim (Bool-cases (holds_control raw)) [
  | inl control ↦ absurd (ground arith)
  | inr clean ↦
      let segments = walk_name-IsFlat [] [] (to_slashes raw) tt tt (to_slash-IsClean raw clean) in
      let kept : join_stack (walk_name [] [] (to_slashes raw)) ≡ some name = ground arith in
      let flat = join_stack-IsFlat (walk_name [] [] (to_slashes raw)) name segments kept in
      (flat, IsFlat-fixed name flat)
]
