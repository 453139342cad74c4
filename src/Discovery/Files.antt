-- ===== src/Discovery/Files.antt =====
-- internal/discovery/executable_identity.go, and `inspectExecutable` of resolver.go. What the file
-- system answers at one moment is a parameter; a file's number is what `os.SameFile` compares.
use cliharbor.Prelude.{ℕ, Bool, false, not, ◌&&◌, ◌||◌, Option, none, some, ◌==◌, if◌then◌else◌}
use cliharbor.Prelude.Text.{Text, lit, text_eq}
use cliharbor.Host.{Host}
use cliharbor.Discovery.{ExecutableIdentity}

pub record FileInfo : Type 0 where
  pub number : ℕ
  pub regular : Bool
  pub symlink : Bool
  -- `Mode().Perm() & 0o111 != 0`
  pub executable : Bool
  pub size : ℕ
  pub mod_time : ℕ

-- `opened` is `os.Open` with `Stat` of the open file, `digest` the SHA-256 of its contents.
pub record Files : Type 0 where
  pub stat : Text → Option FileInfo
  pub lstat : Text → Option FileInfo
  pub opened : Text → Option FileInfo
  pub digest : Text → Option Text
  pub eval_symlinks : Text → Option Text
  pub absolute : Text → Option Text

abbrev pub is_windows : Text → Bool
is_windows goos = text_eq goos (lit "windows")

unfoldable pub inspect_identity : Files → Text → Option (FileInfo × Text)
inspect_identity files path = elim (files.lstat path) [
  | none ↦ none
  | some at_path ↦ elim (files.opened path) [
    | none ↦ none
    | some info ↦ elim (files.digest path) [
      | none ↦ none
      | some digest ↦
          if at_path.symlink
            || (not at_path.regular || (not info.regular || not (at_path.number == info.number)))
          then none
          else some (info, digest)
    ]
  ]
]

unfoldable pub capture : Files → Text → Option ExecutableIdentity
unfolding inspect_identity
capture files path = elim (inspect_identity files path) [
  | none ↦ none
  | some (info, digest) ↦ some (record {
    info = some info.number;
    size = info.size;
    mod_time = info.mod_time;
    digest = digest;
  })
]

abbrev pub same_identity : ExecutableIdentity → FileInfo → Text → Bool
same_identity i info digest = elim i.info [
  | none ↦ false
  | some number ↦
      (number == info.number)
      && ((i.size == info.size) && ((i.mod_time == info.mod_time) && text_eq i.digest digest))
]

-- `Matches`
unfoldable pub still_holds : Files → ExecutableIdentity → Text → Bool
unfolding inspect_identity
still_holds files i path = elim (inspect_identity files path) [
  | none ↦ false
  | some (info, digest) ↦ same_identity i info digest
]

unfoldable pub inspect_executable : Host → Text → Files → Text → Option Text
inspect_executable host goos files path = elim (files.stat path) [
  | none ↦ none
  | some info ↦
      let resolved : Option Text = elim (files.eval_symlinks path) [
        | none ↦ none
        | some target ↦ elim (files.absolute target) [
          | none ↦ none
          | some absolute ↦ some (host.clean absolute)
        ]
      ] in
      if not info.regular || (not (is_windows goos) && not info.executable) then none else resolved
]
