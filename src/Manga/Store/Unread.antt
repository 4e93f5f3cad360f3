-- ===== src/Manga/Store/Unread.antt =====
-- src/manga/mstore.cpp: the chapter at which reading goes on, and the chapters that are new.
use shigoku.Common.{
  ℕ, zero, ◌∙◌, ◌≤◌, ◌<◌, dec_lt, Bytes, Bool, true, false, List, ◌∷◌, [], if◌then◌else◌, length,
  drop, get_elem?, ltb, ◌+◌, ◌≡◌, refl, some, All, bytes_eq, suc, arith, ◌||◌,
}
use shigoku.Common.Int.{ℤ, pos, negsuc}
use shigoku.Manga.Store.Shelf.{MdChapter}

unfoldable pub highest_read : (Bytes → Bool) → ℕ → ℤ → List MdChapter → ℤ
highest_read read_ids i highest [] = highest
highest_read read_ids i highest (c ∷ chapters) =
    highest_read read_ids (suc i) (if read_ids c.id then pos i else highest) chapters

-- One more, from -1 on.
abbrev pub one_past : ℤ → ℕ
one_past (pos n) = suc n
one_past (negsuc n) = 0

unfoldable pub next_unread_index : List MdChapter → (Bytes → Bool) → ℤ
unfolding highest_read
next_unread_index [] read_ids = negsuc 0
next_unread_index (c ∷ chapters) read_ids =
    let next = one_past (highest_read read_ids 0 (negsuc 0) (c ∷ chapters)) in
    if ltb next (length (c ∷ chapters)) then pos next else negsuc 0

unfoldable pub is_known : Bytes → List MdChapter → Bool
is_known id [] = false
is_known id (c ∷ cached) = bytes_eq c.id id || is_known id cached

unfoldable pub new_chapter_ids : List MdChapter → List MdChapter → List Bytes
unfolding is_known
new_chapter_ids cached [] = []
new_chapter_ids cached (c ∷ fresh) =
    let rest = new_chapter_ids cached fresh in if is_known c.id cached then rest else c.id ∷ rest

module _ (read_ids : Bytes → Bool) where
  -- How many chapters there are up to the last one that is read.
  past_step : ℕ → Bool → ℕ
  past_step (suc n) seen = suc (suc n)
  past_step zero true = 1
  past_step zero false = 0

  past_last : List MdChapter → ℕ
  past_last [] = 0
  past_last (c ∷ chapters) = past_step (past_last chapters) (read_ids c.id)

  abbrev reached : ℕ → ℕ → ℤ → ℕ
  reached i (suc n) highest = i + suc n
  reached i zero highest = one_past highest

  reached-step :
      (i n : ℕ) (seen : Bool) (highest : ℤ)
      → reached (suc i) n (if seen then pos i else highest) ≡ reached i (past_step n seen) highest
  unfolding past_step
  reached-step i (suc n) seen highest = omega arith
  reached-step i zero true highest = omega arith
  reached-step i zero false highest = refl

  reached-start : (n : ℕ) → reached 0 n (negsuc 0) ≡ n
  reached-start zero = refl
  reached-start (suc n) = omega arith

  highest_read_lem :
      (i : ℕ) (highest : ℤ) (chapters : List MdChapter)
      → one_past (highest_read read_ids i highest chapters) ≡ reached i (past_last chapters) highest
  unfolding highest_read past_last
  highest_read_lem i highest [] = refl
  highest_read_lem i highest (c ∷ chapters) =
      highest_read_lem (suc i) (if read_ids c.id then pos i else highest) chapters
      ∙ reached-step i (past_last chapters) (read_ids c.id) highest

  abbrev IsUnread : MdChapter → Type 0
  IsUnread c = read_ids c.id ≡ false

  IsUnread-step :
      (n : ℕ) (seen : Bool) (c : MdChapter) (chapters : List MdChapter)
      → read_ids c.id ≡ seen
      → All IsUnread (drop n chapters)
      → All IsUnread (drop (past_step n seen) (c ∷ chapters))
  unfolding past_step
  IsUnread-step (suc n) seen c chapters e unread = unread
  IsUnread-step zero true c chapters e unread = unread
  IsUnread-step zero false c chapters e unread = (e, unread)

  past_last-IsUnread :
      (chapters : List MdChapter) → All IsUnread (drop (past_last chapters) chapters)
  unfolding past_last
  past_last-IsUnread [] = tt
  past_last-IsUnread (c ∷ chapters) =
      IsUnread-step (past_last chapters) (read_ids c.id) c chapters refl
        (past_last-IsUnread chapters)

  -- The chapter just before is read, if there is one.
  abbrev IsReadBefore : ℕ → List MdChapter → Type 0
  IsReadBefore zero chapters = Unit
  IsReadBefore (suc n) chapters =
      (c : MdChapter) × (get_elem? chapters n ≡ some c) × (read_ids c.id ≡ true)

  IsReadBefore-step :
      (n : ℕ) (seen : Bool) (c : MdChapter) (chapters : List MdChapter)
      → read_ids c.id ≡ seen
      → IsReadBefore n chapters
      → IsReadBefore (past_step n seen) (c ∷ chapters)
  unfolding past_step
  IsReadBefore-step (suc n) seen c chapters e before = before
  IsReadBefore-step zero true c chapters e before = (c, refl, e)
  IsReadBefore-step zero false c chapters e before = tt

  past_last-IsReadBefore : (chapters : List MdChapter) → IsReadBefore (past_last chapters) chapters
  unfolding past_last
  past_last-IsReadBefore [] = tt
  past_last-IsReadBefore (c ∷ chapters) =
      IsReadBefore-step (past_last chapters) (read_ids c.id) c chapters refl
        (past_last-IsReadBefore chapters)

  length-step : (n m : ℕ) (seen : Bool) → n ≤ m → past_step n seen ≤ suc m
  unfolding past_step
  length-step (suc n) m seen h = omega arith
  length-step zero m true h = omega arith
  length-step zero m false h = omega arith

  past_last-length : (chapters : List MdChapter) → past_last chapters ≤ length chapters
  unfolding past_last
  past_last-length [] = omega arith
  past_last-length (c ∷ chapters) =
      length-step (past_last chapters) (length chapters) (read_ids c.id) (past_last-length chapters)

  -- The index is that of an unread chapter with no read one after it, just after the last read one; it
  -- is -1 if there is no chapter, or the last one is read.
  abbrev pub IsNext : List MdChapter → ℤ → Type 0
  IsNext chapters (pos n) =
      (n < length chapters) × IsReadBefore n chapters × All IsUnread (drop n chapters)
  IsNext chapters (negsuc n) = (n ≡ 0) × IsReadBefore (length chapters) chapters

  IsNext-chosen :
      (n : ℕ) (chapters : List MdChapter)
      → n ≤ length chapters
      → IsReadBefore n chapters
      → All IsUnread (drop n chapters)
      → IsNext chapters (if ltb n (length chapters) then pos n else negsuc 0)
  IsNext-chosen n chapters bound before unread = elim (dec_lt n (length chapters)) [
    | yes below ↦
        let test : ltb n (length chapters) ≡ true = ground arith in rw test (below, before, unread)
    | no above ↦
        let test : ltb n (length chapters) ≡ false = ground arith in
        let whole : n ≡ length chapters = omega arith in rw test (refl, rw whole at before)
  ]

  -- Reading goes on just after the last chapter that is read, where all chapters from there on are
  -- unread; at the first one if none is read; and nowhere if there is no chapter or the last one is read.
  pub next_unread_index-IsNext :
      (chapters : List MdChapter) → IsNext chapters (next_unread_index chapters read_ids)
  unfolding next_unread_index
  next_unread_index-IsNext [] = (refl, tt)
  next_unread_index-IsNext (c ∷ chapters) =
      rw (highest_read_lem 0 (negsuc 0) (c ∷ chapters), reached-start (past_last (c ∷ chapters)))
        (IsNext-chosen (past_last (c ∷ chapters)) (c ∷ chapters) (past_last-length (c ∷ chapters))
          (past_last-IsReadBefore (c ∷ chapters)) (past_last-IsUnread (c ∷ chapters)))
