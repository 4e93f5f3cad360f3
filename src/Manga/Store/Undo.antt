-- ===== src/Manga/Store/Undo.antt =====
-- The mark of a chapter that is taken back.
use shigoku.Store.Providers.{eq_edge}
use shigoku.Store.Keyed.Laws.{key-find}
use shigoku.Common.{
  refl, Bytes, List, ◌≡◌, true, some, Option-cases, none, inl, inr, Option, ◌∙◌, ap,
}
use shigoku.Common.Int.{ℤ}
use shigoku.Store.Keyed.{find, upsert, delete_where}
use shigoku.Store.Keyed.Undo.{
  upsert-undo, delete_where-upsert, delete_where-missing, upsert-same, delete_where-written,
}
use shigoku.Manga.Store.{
  read_to_end, undo_read, mark_read, chapter_progress_row, insert_progress, restore_progress,
  clear_progress, chapter_key, read_mark, mark_columns, restore_columns, InsertFaults, Marks,
  ChapterRow,
}

insert_progress-fine :
    (d : InsertFaults) (fresh : ChapterRow) (write : ChapterRow → ChapterRow) (m : Marks)
    → d.statement ≡ none
    → m.known fresh.manga_id ≡ true
    → (insert_progress d fresh write m).1
      ≡ record m { progress = upsert chapter_key fresh write m.progress }
unfolding insert_progress
insert_progress-fine d fresh write m fine known = rw (fine, insert_progress) (rw known refl)

insert_progress-fault :
    (d : InsertFaults) (fresh : ChapterRow) (write : ChapterRow → ChapterRow) (m : Marks)
    (why : Bytes)
    → d.statement ≡ some why
    → (insert_progress d fresh write m).1 ≡ m
unfolding insert_progress
insert_progress-fault d fresh write m why fault = rw (fault, insert_progress) refl

clear_progress-fine :
    (fault : Option Bytes) (scoped chapter_id : Bytes) (m : Marks)
    → fault ≡ none
    → (clear_progress fault scoped chapter_id m).1 ≡ record m {
      progress =
          delete_where
            (λ (r : ChapterRow). eq_edge (r.manga_id, r.entry.chapter_id) (scoped, chapter_id))
            m.progress;
    }
unfolding clear_progress
clear_progress-fine fault scoped chapter_id m fine = rw (fine, clear_progress) refl

module _ (d d' : InsertFaults) (scoped chapter_id chapter : Bytes) (now : ℤ) (m : Marks)
    (known : m.known scoped ≡ true) (fine : d'.statement ≡ none) where
  abbrev fresh : ChapterRow
  fresh = record { manga_id = scoped; entry = read_mark chapter_id chapter now }

  abbrev restored : ChapterRow → ChapterRow
  restored r = record { manga_id = scoped; entry = r.entry }

  abbrev marks_with : List ChapterRow → Marks
  marks_with rows = record m { progress = rows }

  -- There was no row.
  undo-new :
      find chapter_key (scoped, chapter_id) m.progress ≡ none
      → undo_read d' scoped chapter_id none (mark_read d scoped chapter_id chapter now m).1 ≡ m
  unfolding undo_read mark_read
  undo-new missing = elim (Option-cases d.statement) [
    | inl marks ↦ rw (insert_progress-fine d fresh (mark_columns chapter now) m marks known) (
        clear_progress-fine d'.statement scoped chapter_id
          (marks_with (upsert chapter_key fresh (mark_columns chapter now) m.progress)) fine
        ∙ ap marks_with
            (delete_where-upsert chapter_key fresh (mark_columns chapter now) m.progress missing))
    | inr (why, fault) ↦ rw (insert_progress-fault d fresh (mark_columns chapter now) m why fault) (
        clear_progress-fine d'.statement scoped chapter_id m fine
        ∙ ap marks_with (delete_where-missing chapter_key (scoped, chapter_id) m.progress missing))
  ]

  -- There was a row.
  undo-old :
      (r : ChapterRow)
      → find chapter_key (scoped, chapter_id) m.progress ≡ some r
      → undo_read d' scoped chapter_id
          (some r.entry)
          (mark_read d scoped chapter_id chapter now m).1
        ≡ m
  unfolding undo_read mark_read restore_progress
  undo-old r found =
      let key = key-find chapter_key (scoped, chapter_id) m.progress r found in
      let same : ◌≡◌ {A = Bytes × Bytes} (scoped, r.entry.chapter_id) (scoped, chapter_id) =
        cc key in
      elim (Option-cases d.statement) [
        | inl marks ↦ rw (insert_progress-fine d fresh (mark_columns chapter now) m marks known) (
            insert_progress-fine d' (restored r) (restore_columns r.entry)
              (marks_with (upsert chapter_key fresh (mark_columns chapter now) m.progress)) fine
              known
            ∙ ap marks_with (
                upsert-undo chapter_key fresh (restored r) (mark_columns chapter now)
                  (restore_columns r.entry) r m.progress same (λ x. refl) refl found))
        | inr (why, fault) ↦
            rw (insert_progress-fault d fresh (mark_columns chapter now) m why fault) (
              insert_progress-fine d' (restored r) (restore_columns r.entry) m fine known
              ∙ ap marks_with (
                  upsert-same chapter_key (restored r) (restore_columns r.entry) r m.progress refl
                    (rw same found)))
      ]

  -- The row was not read.
  undo-unread :
      undo_read d' scoped chapter_id none (mark_read d scoped chapter_id chapter now m).1
      ≡ marks_with (
          delete_where
            (λ (r : ChapterRow). eq_edge (r.manga_id, r.entry.chapter_id) (scoped, chapter_id))
            m.progress)
  unfolding undo_read mark_read
  undo-unread = elim (Option-cases d.statement) [
    | inl marks ↦ rw (insert_progress-fine d fresh (mark_columns chapter now) m marks known) (
        clear_progress-fine d'.statement scoped chapter_id
          (marks_with (upsert chapter_key fresh (mark_columns chapter now) m.progress)) fine
        ∙ ap marks_with (
            delete_where-written chapter_key fresh (mark_columns chapter now) m.progress
              (λ r. refl)))
    | inr (why, fault) ↦
        rw (insert_progress-fault d fresh (mark_columns chapter now) m why fault)
          (clear_progress-fine d'.statement scoped chapter_id m fine)
  ]

-- The marks once the undo is written: as they were before the mark if the chapter's row could be read
-- then, and else without that row.
abbrev pub undone : Option Bytes → Bytes → Bytes → Marks → Marks
undone none scoped chapter_id m = m
undone (some why) scoped chapter_id m = record m {
  progress =
      delete_where
        (λ (r : ChapterRow). eq_edge (r.manga_id, r.entry.chapter_id) (scoped, chapter_id))
        m.progress;
}

-- Of a manga in the library, a mark is taken back by an undo that is written: where the chapter's row
-- could be read before the mark, the library's marks are then exactly what they were, whatever the mark
-- did, also if it failed, and whether or not the chapter had a row, with a mark or a page in it. Where
-- that row could not be read, it is lost: the undo deletes it, also if it had been there before.
pub undo_read-restores :
    (look : Option Bytes) (d d' : InsertFaults) (scoped chapter_id chapter : Bytes) (now : ℤ)
    (m : Marks)
    → m.known scoped ≡ true
    → d'.statement ≡ none
    → undo_read d' scoped chapter_id
        (read_to_end look d scoped chapter_id chapter now m).0
        (read_to_end look d scoped chapter_id chapter now m).1
      ≡ undone look scoped chapter_id m
unfolding read_to_end chapter_progress_row
undo_read-restores (some why) d d' scoped chapter_id chapter now m known fine =
    undo-unread d d' scoped chapter_id chapter now m known fine
undo_read-restores none d d' scoped chapter_id chapter now m known fine =
    elim (Option-cases (find chapter_key (scoped, chapter_id) m.progress)) [
      | inl missing ↦ rw missing (undo-new d d' scoped chapter_id chapter now m known fine missing)
      | inr (r, found) ↦ rw found (undo-old d d' scoped chapter_id chapter now m known fine r found)
    ]
