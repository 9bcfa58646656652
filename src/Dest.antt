-- ===== src/Dest.antt =====
-- The destination of a download, src/path.cpp: what is there, where the job's files go, and how they are
-- made. The file system's answers are parameters.
pub mod Kinds
pub mod Process
pub mod Create
mod Tests
use gko_pool.Prelude.{
  ℕ, zero, suc, ◌+◌, ◌-◌, ◌/◌, ◌%◌, Bool, true, false, ◌&&◌, ◌||◌, not, Option, none, some, List,
  [], ◌∷◌, ◌++◌, leb, ◌==◌, if◌then◌else◌, get_or, length, take, drop, ltb,
}
use gko_pool.Prelude.Int.{ℤ, pos, negsuc, ltb_ℤ}
use gko_pool.Paths.{
  max_path_len, strncpy, inplace_strip_tailing_slash, get_base_name_index, cwd_path_to_abs_path,
  change_to_local_path,
}

-- What lstat and stat answer for a path: the errno ENOENT, another error, or the file's kind.
pub data Kind : Type 0 where
  regular directory link special : Kind

pub data Stat : Type 0 where
  missing failed : Stat
  found : Kind → Stat

pub record Stats : Type 0 where
  pub lstat : List ℕ → Stat
  pub stat : List ℕ → Stat

-- GKO_FILE, GKO_DIR, GKO_NONE, GKO_OTHR, GKO_LINK, those of the targets of links, and GKO_ERR
abbrev pub gko_othr : ℕ
gko_othr = 0

abbrev pub gko_file : ℕ
gko_file = 1

abbrev pub gko_dir : ℕ
gko_dir = 2

abbrev pub gko_none : ℕ
gko_none = 4

abbrev pub gko_link : ℕ
gko_link = 8

abbrev pub gko_lothr : ℕ
gko_lothr = 8

abbrev pub gko_lfile : ℕ
gko_lfile = 9

abbrev pub gko_ldir : ℕ
gko_ldir = 10

abbrev pub gko_lnone : ℕ
gko_lnone = 12

abbrev pub gko_err : ℕ
gko_err = 64

-- `type & flag`, for a flag of one bit
abbrev pub has : ℕ → ℕ → Bool
has type flag = type / flag % 2 == 1

-- path_type
abbrev type_of_target : Stat → ℕ
type_of_target Stat.missing = gko_lnone
type_of_target Stat.failed = gko_err
type_of_target (Stat.found Kind.regular) = gko_lfile
type_of_target (Stat.found Kind.directory) = gko_ldir
type_of_target (Stat.found Kind.link) = gko_lothr
type_of_target (Stat.found Kind.special) = gko_lothr

abbrev type_of : Stat → Stat → ℕ
type_of Stat.missing target = gko_none
type_of Stat.failed target = gko_err
type_of (Stat.found Kind.regular) target = gko_file
type_of (Stat.found Kind.directory) target = gko_dir
type_of (Stat.found Kind.link) target = type_of_target target
type_of (Stat.found Kind.special) target = gko_othr

pub path_type : Stats → List ℕ → ℕ
path_type fs p =
    let path = inplace_strip_tailing_slash (strncpy p max_path_len) in
    type_of (fs.lstat path) (fs.stat path)

-- The part of s_file_t that the functions here use. The size is -1 for a directory and -2 for a
-- symbolic link.
pub record File : Type 0 where
  pub name : List ℕ
  pub sympath : List ℕ
  pub size : ℤ
  pub mode : ℕ

abbrev with_name : File → List ℕ → File
with_name file name = record {
  name = name;
  sympath = file.sympath;
  size = file.size;
  mode = file.mode;
}

-- The loop of process_path over the files: the result, and the files with those before a failure changed.
pub change_next : ℤ → File → ℤ × List File → List File → ℤ × List File
change_next (pos n) file (result, changed) files = (result, file ∷ changed)
change_next (negsuc n) file later files = (negsuc 0, file ∷ files)

pub change_all : List File → List ℕ → List ℕ → Bool → ℤ × List File
change_all [] uri out_path exist = (pos 0, [])
change_all (file ∷ files) uri out_path exist =
    let (result, name) = change_to_local_path file.name uri out_path exist in
    change_next result (with_name file name) (change_all files uri out_path exist) files

-- The branches of process_path: a destination that is missing, one that is a file.
pub process_missing :
    Stats → Option (List ℕ) → ℕ → List ℕ → List ℕ → List ℕ → List File → Option (ℤ × List File)
process_missing fs cwd out_type out_path path uri files =
    let size : ℤ = elim files [ [] ↦ negsuc 0 | file ∷ others ↦ file.size ] in
    let below : Option (ℤ × List File) = elim (cwd_path_to_abs_path cwd out_path) [
      | none ↦ none
      | some base ↦ elim (get_base_name_index base) [
        | negsuc n ↦ some (negsuc 0, files)
        | pos base_idx ↦
            if has (path_type fs (take base_idx base)) gko_dir
            then some (change_all files uri out_path false)
            else some (negsuc 0, files)
      ]
    ] in
    if has out_type gko_link
    then some (negsuc 0, files)
    else if (length files == 1)
        && (not (ltb_ℤ size (pos 0)) && (get_or path (length path - 1) 0 == b'/'))
    then some (negsuc 0, files)
    else below

pub process_file : List ℕ → List File → ℤ × List File
process_file out_path (file ∷ []) = elim file.size [
  | pos n ↦ (pos 0, with_name file (strncpy out_path max_path_len) ∷ [])
  | negsuc zero ↦ (negsuc 0, file ∷ [])
  | negsuc (suc zero) ↦ (negsuc 0, file ∷ [])
  | negsuc (suc (suc n)) ↦ (pos 0, with_name file (strncpy out_path max_path_len) ∷ [])
]
process_file out_path files = (negsuc 0, files)

-- process_path on jo's path, uri and files: the result and the files, none where the source goes on with
-- a buffer that cwd_path_to_abs_path has not filled.
pub process_path : Stats → Option (List ℕ) → List ℕ → List ℕ → List File → Option (ℤ × List File)
process_path fs cwd path uri files =
    let out_path = inplace_strip_tailing_slash (strncpy path max_path_len) in
    let out_type = path_type fs out_path in
    if has out_type gko_none
    then process_missing fs cwd out_type out_path path uri files
    else if has out_type gko_file
    then some (process_file out_path files)
    else if has out_type gko_dir
    then some (change_all files uri out_path true)
    else some (negsuc 0, files)

-- S_IWUSR and mode|S_IWUSR
abbrev pub owner_write : ℕ
owner_write = 128

abbrev pub writable : ℕ → ℕ
writable mode = if has mode owner_write then mode else mode + owner_write

-- The calls of mk_dir_symlink_file and correct_mode that change the file system, and close. An open that
-- fails does neither.
pub data Call : Type 0 where
  mkdir : List ℕ → ℕ → Call
  symlink : List ℕ → List ℕ → Call
  unlink : List ℕ → Call
  opens : List ℕ → ℕ → Call
  ftruncate : ℤ → Call
  close : Call
  chmod : List ℕ → ℕ → Call

-- What the calls for one file answer: success, the errno EEXIST or another error; and the size that
-- fstat gives, if it does.
pub data Answer : Type 0 where
  ok exists fails : Answer

pub record Answers : Type 0 where
  pub made : Answer
  pub opened : Bool
  pub fstat : Option ℤ
  pub truncated : Bool
  pub chmoded : Bool

-- The result, the flag to_continue and the calls.
abbrev pub Made : Type 0
Made = ℤ × Bool × List Call

abbrev eq_ℤ : ℤ → ℤ → Bool
eq_ℤ (pos a) (pos b) = a == b
eq_ℤ (negsuc a) (negsuc b) = a == b
eq_ℤ (pos a) (negsuc b) = false
eq_ℤ (negsuc a) (pos b) = false

-- Whether the flag stays for a file of this size.
abbrev pub same_size : File → Option ℤ → Bool
same_size file none = false
same_size file (some size) = eq_ℤ size file.size

-- The cases of mk_dir_symlink_file's switch.
pub make_dir : File → Answer → Bool → Made
make_dir file Answer.ok flag = (pos 0, flag, Call.mkdir file.name (writable file.mode) ∷ [])
make_dir file Answer.exists flag = (pos 0, flag, Call.mkdir file.name (writable file.mode) ∷ [])
make_dir file Answer.fails flag = (negsuc 0, flag, Call.mkdir file.name (writable file.mode) ∷ [])

-- Whether the unlink and the second symlink succeed is only logged.
pub make_symlink : File → Answer → Bool → Made
make_symlink file Answer.ok flag = (pos 0, flag, Call.symlink file.sympath file.name ∷ [])
make_symlink file Answer.exists flag = (
  pos 0,
  flag,
  Call.symlink file.sympath file.name
      ∷ Call.unlink file.name
      ∷ Call.symlink file.sympath file.name
      ∷ [],
)
make_symlink file Answer.fails flag = (negsuc 0, flag, Call.symlink file.sympath file.name ∷ [])

pub make_file : File → Answers → Bool → Made
make_file file answers flag =
    let flag' = flag && same_size file answers.fstat in
    let opened = Call.opens file.name (writable file.mode) in
    if not answers.opened
    then (negsuc 0, flag, [])
    else if not answers.truncated
    then (negsuc 0, flag', opened ∷ Call.ftruncate file.size ∷ Call.close ∷ [])
    else (pos 0, flag', opened ∷ Call.ftruncate file.size ∷ Call.close ∷ [])

-- `tmp->size` is the switch's value.
pub make_one : ℤ → File → Answers → Bool → Made
make_one (pos n) file answers flag = make_file file answers flag
make_one (negsuc zero) file answers flag = make_dir file answers.made flag
make_one (negsuc (suc zero)) file answers flag = make_symlink file answers.made flag
make_one (negsuc (suc (suc n))) file answers flag = make_file file answers flag

-- The files after one, unless it has failed.
pub make_next : Made → Made → Made
make_next (pos n, flag, calls) (last, flag', others) = (last, flag', calls ++ others)
make_next (negsuc n, flag, calls) rest = (negsuc n, flag, calls)

-- mk_dir_symlink_file, on the answers for each of its files
pub mk_dir_symlink_file : List (File × Answers) → Bool → Made
mk_dir_symlink_file [] flag = (pos 0, flag, [])
mk_dir_symlink_file ((file, answers) ∷ files) flag =
    let made = make_one file.size file answers flag in
    make_next made (mk_dir_symlink_file files made.1)

-- correct_mode: its result and its calls
abbrev pub needs_chmod : File → Bool
needs_chmod file = eq_ℤ file.size (negsuc 0) || not (has file.mode owner_write)

pub correct_mode : List (File × Answers) → ℤ × List Call
correct_mode [] = (pos 0, [])
correct_mode ((file, answers) ∷ files) =
    let (last, others) = correct_mode files in
    let call = Call.chmod file.name file.mode in
    if not (needs_chmod file)
    then (last, others)
    else if answers.chmoded
    then (last, call ∷ others)
    else (negsuc 0, call ∷ [])
