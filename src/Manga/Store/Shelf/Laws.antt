-- ===== src/Manga/Store/Shelf/Laws.antt =====
-- The chapters that are cached, and read back.
use shigoku.Manga.Store.{MgStoreError}
use mathlib.Core.List.{append-nil, append_assoc}
use shigoku.Common.{
  refl, ℕ, keep_if, Bytes, List, Bool, ◌≢◌, ◌++◌, ◌≡◌, ◌∷◌, bytes_eq, arith, [], true, suc,
  bytes_eq_refl, false, ap, refl, Bool-cases, inr, inl, sym, bytes_eq_sound, ◌∙◌, not, Option-cases,
  leb, ◌||◌, ◌+◌, ◌⊎◌, length,
}
use shigoku.Common.Int.{ℤ}
use shigoku.Store.Types.{Result, ok, err, Result-cases}
use shigoku.Store.Keyed.{delete_where}
use shigoku.Manga.Store.Shelf.{
  put_chapters, end_cache, insert_chapters, cached_chapters, chapters_of, sort_ord, insert_ord,
  cache_row, of_manga, CacheFaults, CacheRow, MdChapter, is_cached,
}

keep_if-append :
    (p : CacheRow → Bool) (xs ys : List CacheRow)
    → keep_if p (xs ++ ys) ≡ keep_if p xs ++ keep_if p ys
unfolding keep_if
keep_if-append p [] ys = refl
keep_if-append p (x ∷ xs) ys = ground (arith, keep_if-append p xs ys)

-- The rows of one manga are deleted, and those of the others kept.
keep_if-deleted :
    (p : CacheRow → Bool) (rows : List CacheRow) → keep_if p (delete_where p rows) ≡ []
unfolding keep_if delete_where
keep_if-deleted p [] = refl
keep_if-deleted p (x ∷ rows) = ground (arith, keep_if-deleted p rows)

apart :
    (scoped another : Bytes) (r : CacheRow)
    → another ≢ scoped
    → of_manga another r ≡ true
    → of_manga scoped r ≡ false
apart scoped another r n h = elim (Bool-cases (of_manga scoped r)) [
  | inr other ↦ other
  | inl same ↦
      absurd (n (sym (bytes_eq_sound r.manga_id another h) ∙ bytes_eq_sound r.manga_id scoped same))
]

keep_if-others :
    (scoped another : Bytes) (rows : List CacheRow)
    → another ≢ scoped
    → keep_if (of_manga another) (delete_where (of_manga scoped) rows)
      ≡ keep_if (of_manga another) rows
unfolding keep_if delete_where
keep_if-others scoped another [] n = refl
keep_if-others scoped another (r ∷ rows) n =
    ground (arith, apart scoped another r n, keep_if-others scoped another rows n)

module _ (d : CacheFaults) (scoped : Bytes) (now : ℤ) where
  -- The rows that are inserted.
  inserted : ℕ → List MdChapter → List CacheRow
  inserted i [] = []
  inserted i (c ∷ chapters) = cache_row d scoped now c i ∷ inserted (suc i) chapters

  -- The INSERT of one chapter.
  abbrev refused : MdChapter → List CacheRow → Bool
  refused c rows = not (d.known scoped) || is_cached scoped c.id rows

  insert-step :
      (i : ℕ) (c : MdChapter) (chapters : List MdChapter) (rows after : List CacheRow)
      → insert_chapters d scoped now i (c ∷ chapters) rows ≡ ok after
      → insert_chapters d scoped now (suc i) chapters (rows ++ cache_row d scoped now c i ∷ [])
        ≡ ok after
  unfolding insert_chapters
  insert-step i c chapters rows after h = elim (Option-cases (d.fault (i + 2))) [
    | inr (why, fault) ↦ absurd (cc (rw (fault, insert_chapters) at h))
    | inl fine ↦ elim (Bool-cases (refused c rows)) [
      | inl bad ↦ absurd (cc (rw (bad, insert_chapters) at (rw (fine, insert_chapters) at h)))
      | inr good ↦ rw (good, insert_chapters) at (rw (fine, insert_chapters) at h)
    ]
  ]

  insert_chapters-ok :
      (i : ℕ) (chapters : List MdChapter) (rows after : List CacheRow)
      → insert_chapters d scoped now i chapters rows ≡ ok after
      → after ≡ rows ++ inserted i chapters
  unfolding inserted
  insert_chapters-ok i [] rows after h = unfold insert_chapters in rw append-nil (cc h)
  insert_chapters-ok i (c ∷ chapters) rows after h =
      insert_chapters-ok (suc i) chapters (rows ++ cache_row d scoped now c i ∷ []) after
        (insert-step i c chapters rows after h)
      ∙ append_assoc rows (cache_row d scoped now c i ∷ []) (inserted (suc i) chapters)

  inserted-kept :
      (i : ℕ) (chapters : List MdChapter)
      → keep_if (of_manga scoped) (inserted i chapters) ≡ inserted i chapters
  unfolding keep_if inserted
  inserted-kept i [] = refl
  inserted-kept i (c ∷ chapters) = rw (bytes_eq_refl scoped) (
      ap (λ (xs : List CacheRow). cache_row d scoped now c i ∷ xs) (inserted-kept (suc i) chapters))

  others : (another : Bytes) → another ≢ scoped → bytes_eq scoped another ≡ false
  others another n = elim (Bool-cases (bytes_eq scoped another)) [
    | inl same ↦ absurd (n (sym (bytes_eq_sound scoped another same)))
    | inr other ↦ other
  ]

  inserted-others :
      (another : Bytes) (i : ℕ) (chapters : List MdChapter)
      → bytes_eq scoped another ≡ false
      → keep_if (of_manga another) (inserted i chapters) ≡ []
  unfolding keep_if inserted
  inserted-others another i [] n = refl
  inserted-others another i (c ∷ chapters) n = rw n (inserted-others another (suc i) chapters n)

  insert-first :
      (i : ℕ) (c : MdChapter) (chapters : List MdChapter)
      → insert_ord (cache_row d scoped now c i) (inserted (suc i) chapters)
        ≡ cache_row d scoped now c i ∷ inserted (suc i) chapters
  unfolding insert_ord inserted
  insert-first i c [] = refl
  insert-first i c (e ∷ chapters) = let below : leb i (suc i) ≡ true = ground arith in rw below refl

  inserted-sorted :
      (i : ℕ) (chapters : List MdChapter) → sort_ord (inserted i chapters) ≡ inserted i chapters
  unfolding sort_ord inserted
  inserted-sorted i [] = refl
  inserted-sorted i (c ∷ chapters) =
      ap (insert_ord (cache_row d scoped now c i)) (inserted-sorted (suc i) chapters)
      ∙ insert-first i c chapters

  inserted-chapters :
      (i : ℕ) (chapters : List MdChapter) → chapters_of (inserted i chapters) ≡ chapters
  unfolding chapters_of inserted
  inserted-chapters i [] = refl
  inserted-chapters i (c ∷ chapters) =
      ap (λ (cs : List MdChapter). c ∷ cs) (inserted-chapters (suc i) chapters)

  -- Either there is an error and nothing has changed, or exactly the new chapters are cached.
  abbrev Replaced :
      List MdChapter → List CacheRow → Result MgStoreError (Unit {0}) × List CacheRow → Type 0
  Replaced chapters rows out =
      ((e : MgStoreError) × (out ≡ (err e, rows)))
      ⊎ (out.1 ≡ delete_where (of_manga scoped) rows ++ inserted 0 chapters)

  end_cache-Replaced :
      (chapters : List MdChapter) (rows after : List CacheRow)
      → after ≡ delete_where (of_manga scoped) rows ++ inserted 0 chapters
      → Replaced chapters rows (end_cache d scoped now (length chapters) rows (ok after))
  unfolding end_cache inserted
  end_cache-Replaced chapters rows after done =
      elim (Option-cases (d.fault (length chapters + 2))) [
        | inl fine ↦ rw (fine, end_cache) (inr done)
        | inr (why, fault) ↦ elim (Bool-cases d.stays_open) [
          | inl kept ↦ rw (fault, end_cache) (rw kept (inr done))
          | inr closed ↦ rw (fault, end_cache) (rw closed (inl (_, refl)))
        ]
      ]

  put_chapters-Replaced :
      (chapters : List MdChapter) (rows : List CacheRow)
      → Replaced chapters rows (put_chapters d scoped now chapters rows)
  unfolding put_chapters
  put_chapters-Replaced chapters rows = elim (Option-cases (d.fault 0)) [
    | inr (why, fault) ↦ rw (fault, put_chapters) (inl (_, refl))
    | inl begun ↦ elim (Option-cases (d.fault 1)) [
      | inr (why, fault) ↦ rw (begun, put_chapters) (rw (fault, put_chapters) (inl (_, refl)))
      | inl deleted ↦
          elim (Result-cases
            (insert_chapters d scoped now 0 chapters (delete_where (of_manga scoped) rows))) [
              | inr (e, bad) ↦
                  rw (begun, put_chapters)
                    (rw (deleted, put_chapters) (rw bad (unfold end_cache in inl (e, refl))))
              | inl (after, good) ↦
                  rw (begun, put_chapters)
                    (rw (deleted, put_chapters)
                      (rw good (
                        end_cache-Replaced chapters rows after (
                          insert_chapters-ok 0 chapters (delete_where (of_manga scoped) rows) after
                            good))))
            ]
    ]
  ]

  cached-inserted :
      (chapters : List MdChapter) (rows : List CacheRow)
      → cached_chapters scoped (delete_where (of_manga scoped) rows ++ inserted 0 chapters)
        ≡ chapters
  unfolding cached_chapters
  cached-inserted chapters rows =
      rw
        (
          keep_if-append (of_manga scoped) (delete_where (of_manga scoped) rows)
              (inserted 0 chapters),
          keep_if-deleted (of_manga scoped) rows,
          inserted-kept 0 chapters,
          inserted-sorted 0 chapters,
        )
        (inserted-chapters 0 chapters)

  cached-others :
      (another : Bytes) (chapters : List MdChapter) (rows : List CacheRow)
      → another ≢ scoped
      → cached_chapters another (delete_where (of_manga scoped) rows ++ inserted 0 chapters)
        ≡ cached_chapters another rows
  unfolding cached_chapters
  cached-others another chapters rows n =
      rw
        (
          keep_if-append (of_manga another) (delete_where (of_manga scoped) rows)
              (inserted 0 chapters),
          keep_if-others scoped another rows n,
          inserted-others another 0 chapters (others another n),
          append-nil,
        )
        refl

  -- Putting the chapters of a manga replaces its cache, as the connection then reads it, by exactly
  -- these, in their order, and leaves the caches of all other manga as they are; or there is an error,
  -- and nothing has changed.
  pub put_chapters-cached :
      (chapters : List MdChapter) (rows : List CacheRow) (another : Bytes)
      → another ≢ scoped
      → ((e : MgStoreError) × (put_chapters d scoped now chapters rows ≡ (err e, rows)))
        ⊎ ((cached_chapters scoped (put_chapters d scoped now chapters rows).1 ≡ chapters)
            × (cached_chapters another (put_chapters d scoped now chapters rows).1
                ≡ cached_chapters another rows))
  put_chapters-cached chapters rows another n = elim (put_chapters-Replaced chapters rows) [
    | inl failed ↦ inl failed
    | inr done ↦
        inr (rw done (cached-inserted chapters rows, cached-others another chapters rows n))
  ]
