-- ===== src/Notifications/Files.antt =====
-- src/app/core/notifications/store.py: the file of the recipients as `load_config` finds it, and
-- `_write_private`, which replaces it by way of a temporary file beside it. Where the file is kept,
-- who may read it and what else is in its directory are not modelled.
use papaia_manager.Base.{
  String, ◌≡◌, refl, Bool, true, false, Bool-cases, inl, inr, Option, none, some, if◌then◌else◌,
}

-- The file: not there, not to be read, or its bytes.
pub data ConfigFile : Type 0 where
  absent unreadable : ConfigFile
  present : String → ConfigFile

-- What `_write_private` asks of the file system, each of which may raise OSError.
pub data WriteStep : Type 0 where
  make_dir unlink_old open_new write_data sync replace unlink_tmp : WriteStep

-- What the file system does during one write: which steps raise, the temporary file that an earlier
-- write has left, and what a writing of the data that raises has written before.
pub record FileSystem : Type 0 where
  pub raises : WriteStep → Bool
  pub left_over : Option String
  pub part : String

-- The file and the temporary file beside it.
pub record Files : Type 0 where
  pub path : ConfigFile
  pub tmp : Option String

-- `os.replace`: the temporary file becomes the file.
abbrev moved : Option String → Files → Files
moved none files = files
moved (some bytes) files = record { path = present bytes; tmp = none }

-- The steps after the temporary file has been opened; whether they have all been done.
unfoldable pub fill_and_replace : FileSystem → String → Files → Bool × Files
fill_and_replace io bytes files =
    if io.raises write_data
    then (false, record files { tmp = some io.part })
    else let full = record files { tmp = some bytes } in
      if io.raises sync
      then (false, full)
      else if io.raises replace
      then (false, full)
      else (true, moved full.tmp full)

-- `finally`: the temporary file is removed, if it can be.
abbrev tidied : FileSystem → Bool × Files → Bool × Files
tidied io (done, files) =
    (done, if io.raises unlink_tmp then files else record files { tmp = none })

-- `_write_private`; whether it returns.
unfoldable pub write_private : FileSystem → String → ConfigFile → Bool × Files
unfolding fill_and_replace
write_private io bytes file =
    let before : Files = record { path = file; tmp = io.left_over } in
    if io.raises make_dir
    then (false, before)
    else if io.raises unlink_old
    then (false, before)
    else let clean = record before { tmp = none } in
      if io.raises open_new
      then (false, clean)
      else tidied io (fill_and_replace io bytes (record clean { tmp = some "" }))

-- What a write leaves at the path: the new bytes where it returns, what was there where it raises.
abbrev pub left_at_path : Bool → String → ConfigFile → ConfigFile
left_at_path true bytes file = present bytes
left_at_path false bytes file = file

fill_and_replace-path :
    (io : FileSystem) (bytes : String) (files : Files)
    → (fill_and_replace io bytes files).1.path
      ≡ left_at_path (fill_and_replace io bytes files).0 bytes files.path
unfolding fill_and_replace
fill_and_replace-path io bytes files = elim (Bool-cases (io.raises write_data)) [
  | inl e ↦ rw e refl
  | inr e ↦ elim (Bool-cases (io.raises sync)) [
    | inl f ↦ rw (e, f) refl
    | inr f ↦ elim (Bool-cases (io.raises replace)) [
      | inl g ↦ rw (e, f, g) refl
      | inr g ↦ rw (e, f, g) refl
    ]
  ]
]

tidied-path :
    (io : FileSystem) (bytes : String) (file : ConfigFile) (answer : Bool × Files)
    → answer.1.path ≡ left_at_path answer.0 bytes file
    → (tidied io answer).1.path ≡ left_at_path (tidied io answer).0 bytes file
tidied-path io bytes file (done, files) h = elim (Bool-cases (io.raises unlink_tmp)) [
  | inl e ↦ rw e h
  | inr e ↦ rw e h
]

-- For every file system, bytes and file: a write that returns has left the bytes, and one that
-- raises, at whichever step, has left what was there.
pub write_private-path :
    (io : FileSystem) (bytes : String) (file : ConfigFile)
    → (write_private io bytes file).1.path ≡ left_at_path (write_private io bytes file).0 bytes file
unfolding write_private
write_private-path io bytes file =
    let opened = fill_and_replace io bytes (record { path = file; tmp = some "" }) in
    elim (Bool-cases (io.raises make_dir)) [
      | inl e ↦ rw e refl
      | inr e ↦ elim (Bool-cases (io.raises unlink_old)) [
        | inl f ↦ rw (e, f) refl
        | inr f ↦ elim (Bool-cases (io.raises open_new)) [
          | inl g ↦ rw (e, f, g) refl
          | inr g ↦
              rw (e, f, g)
                (tidied-path io bytes file opened
                  (fill_and_replace-path io bytes (record { path = file; tmp = some "" })))
        ]
      ]
    ]
