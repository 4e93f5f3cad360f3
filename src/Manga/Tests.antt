-- ===== src/Manga/Tests.antt =====
-- The push of a chapter, the marks and the cache at sample inputs.
use shigoku.Store.Keyed.{upsert, delete_where}
use shigoku.Common.{
  ap, bytes_eq, List, true, none, ◌∷◌, [], ◌≢◌, some, length, false, codes, ◌≤◌, ◌≡◌, All, refl,
  bytes_eq, ◌⊎◌, drop, arith,
}
use shigoku.Common.Int.{pos}
use shigoku.Store.Types.{ok, err}
use shigoku.Domain.Types.{watching}
use shigoku.Manga.Push.{MangaListClient, push_chapter, chapter_progress, pushed}
use shigoku.Manga.Store.{
  MgStoreError, ChapterProgress, Marks, InsertFaults, read_mark, read_to_end, undo_read,
}
use shigoku.Manga.Store.Undo.{undo_read-restores, undone}
use shigoku.Manga.Store.Shelf.{MdChapter, CacheRow, CacheFaults, put_chapters, cached_chapters}
use shigoku.Manga.Store.Shelf.Laws.{put_chapters-cached}
use shigoku.Manga.Store.Unread.{
  next_unread_index, next_unread_index-IsNext, IsNext, new_chapter_ids,
}
use shigoku.Manga.Reading.{report-resumes, viewer_opts, on_viewer_done, next_page}
use shigoku.View.Cli.{Options, parse_cli}
use shigoku.View.Cli.Argv.{build_viewer_argv, builtin}
use shigoku.View.Cli.Report.{parse_report_line, report_line, open_page}
use shigoku.Manga.Push.Laws.{push_chapter-IsForward, IsForward}

abbrev reader : MangaListClient
reader = record {
  fetch_entry = ok (some (record { status = watching; progress = 7; score = 80 }));
  save_entry = λ s. ok (pos 1);
}

push_chapter-IsForward_example :
    (length (push_chapter reader 10 false).1 ≤ 1)
    × All (IsForward reader 10) (push_chapter reader 10 false).1
push_chapter-IsForward_example = push_chapter-IsForward reader 10 false

moves : (push_chapter reader 10 false).0 ≡ pushed 10
unfolding push_chapter
moves = refl

abbrev half_read : ChapterProgress
half_read = record {
  chapter_id = codes "c1";
  chapter = codes "1";
  read = false;
  read_at = pos 5;
  last_page = some (pos 7);
}

abbrev shelf : Marks
shelf = record {
  known = λ id. true;
  progress = (record { manga_id = codes "md:a"; entry = half_read }) ∷ [];
}

abbrev answers : InsertFaults
answers = record { statement = none; foreign_key = [] }

undo_read-restores_example :
    undo_read answers
      (codes "md:a")
      (codes "c1")
      (read_to_end none answers (codes "md:a") (codes "c1") (codes "1") (pos 9) shelf).0
      (read_to_end none answers (codes "md:a") (codes "c1") (codes "1") (pos 9) shelf).1
    ≡ undone none (codes "md:a") (codes "c1") shelf
undo_read-restores_example =
    undo_read-restores none answers answers (codes "md:a") (codes "c1") (codes "1") (pos 9) shelf
      refl refl

-- The page is lost where it could not be read.
lost :
    undo_read answers
      (codes "md:a")
      (codes "c1")
      (read_to_end (some []) answers (codes "md:a") (codes "c1") (codes "1") (pos 9) shelf).0
      (read_to_end (some []) answers (codes "md:a") (codes "c1") (codes "1") (pos 9) shelf).1
    ≡ record shelf { progress = [] }
unfolding delete_where bytes_eq
lost =
    undo_read-restores (some []) answers answers (codes "md:a") (codes "c1") (codes "1") (pos 9)
      shelf refl refl

-- The mark drops the page.
marks_page :
    (read_to_end none answers (codes "md:a") (codes "c1") (codes "1") (pos 9) shelf).1.progress
    ≡ (record { manga_id = codes "md:a"; entry = read_mark (codes "c1") (codes "1") (pos 9) }) ∷ []
unfolding read_to_end upsert bytes_eq
marks_page = refl

abbrev first_chapter : MdChapter
first_chapter = record {
  id = codes "c1";
  chapter = codes "1";
  title = [];
  pages = 20;
  lang = codes "en";
  publish_at = [];
}

abbrev second_chapter : MdChapter
second_chapter = record first_chapter { id = codes "c2"; chapter = codes "2" }

abbrev cache : CacheFaults
cache = record { fault = λ i. none; constraint = []; known = λ id. true; stays_open = false }

abbrev cached_rows : List CacheRow
cached_rows =
    (record { manga_id = codes "md:b"; chapter = first_chapter; ord = 0; fetched_at = pos 3 }) ∷ []

other_manga : codes "md:b" ≢ codes "md:a"
unfolding bytes_eq
other_manga e = let same : true ≡ false = ap (bytes_eq (codes "md:b")) e in cc same

put_chapters-cached_example :
    ((e : MgStoreError) × (put_chapters cache
          (codes "md:a")
          (pos 9)
          (first_chapter ∷ [])
          cached_rows
        ≡ (err e, cached_rows)))
    ⊎ ((cached_chapters
            (codes "md:a")
            (put_chapters cache (codes "md:a") (pos 9) (first_chapter ∷ []) cached_rows).1
          ≡ first_chapter ∷ [])
        × (cached_chapters
              (codes "md:b")
              (put_chapters cache (codes "md:a") (pos 9) (first_chapter ∷ []) cached_rows).1
            ≡ cached_chapters (codes "md:b") cached_rows))
put_chapters-cached_example =
    put_chapters-cached cache (codes "md:a") (pos 9) (first_chapter ∷ []) cached_rows (codes "md:b")
      other_manga

-- The first of two chapters is read.
next_unread_index-IsNext_example :
    IsNext
      (bytes_eq (codes "c1"))
      (first_chapter ∷ second_chapter ∷ [])
      (next_unread_index (first_chapter ∷ second_chapter ∷ []) (bytes_eq (codes "c1")))
next_unread_index-IsNext_example =
    next_unread_index-IsNext (bytes_eq (codes "c1")) (first_chapter ∷ second_chapter ∷ [])

goes_on : next_unread_index (first_chapter ∷ second_chapter ∷ []) (bytes_eq (codes "c1")) ≡ pos 1
unfolding next_unread_index bytes_eq
goes_on = refl

news : new_chapter_ids (first_chapter ∷ []) (first_chapter ∷ second_chapter ∷ []) ≡ codes "c2" ∷ []
unfolding new_chapter_ids bytes_eq
news = refl

half : chapter_progress (codes " 10.5") ≡ some 10
unfolding chapter_progress
half = refl

-- Page 13 of 40.
report-resumes_example :
    let told = parse_report_line (report_line (pos 12)) in
    let opts =
      viewer_opts true
        (codes "/d/.report")
        (codes "T")
        (codes "c1")
        (on_viewer_done (codes "c1") 40 told (λ id. none)) in
    (opt : Options) × (parse_cli
        (drop 1 (build_viewer_argv builtin [] (codes "shigoku-view") (codes "--rtl") [] opts))
      ≡ ok opt)
    × (open_page opt (pos 40) ≡ pos (next_page 12 40))
report-resumes_example =
    report-resumes [] (codes "shigoku-view") (codes "--rtl") (codes "/d/.report") (codes "T")
      (codes "c1") [] true (λ id. none) 12 40 (omega arith) (omega arith)
