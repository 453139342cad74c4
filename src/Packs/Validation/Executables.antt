-- ===== src/Packs/Validation/Executables.antt =====
-- internal/packs/validation.go: `isForbiddenExecutable` and the loop over a tool's executable names.
use cliharbor.Prelude.{Bool, not, ◌||◌, List, [], ◌∷◌, ◌++◌}
use cliharbor.Prelude.Result.{◌>>◌, fail_if}
use cliharbor.Prelude.Text.{Text, lit, text_eq}
use cliharbor.Prelude.Sort.{mem_text}
use cliharbor.Prelude.Strings.{contains_any, trim_suffix}
use cliharbor.Prelude.Loop.{each_at}
use cliharbor.Go.{Go}
use cliharbor.Host.{Host}
use cliharbor.Packs.Validation.{Checked, unsafe_at, indexed}

abbrev script_extensions : List Text
script_extensions =
    lit ".bat"
    ∷ lit ".cmd"
    ∷ lit ".ps1"
    ∷ lit ".psm1"
    ∷ lit ".vbs"
    ∷ lit ".vbe"
    ∷ lit ".js"
    ∷ lit ".jse"
    ∷ lit ".wsf"
    ∷ lit ".wsh"
    ∷ lit ".hta"
    ∷ []

abbrev interpreters : List Text
interpreters =
    lit "cmd"
    ∷ lit "powershell"
    ∷ lit "pwsh"
    ∷ lit "sh"
    ∷ lit "bash"
    ∷ lit "zsh"
    ∷ lit "fish"
    ∷ lit "wscript"
    ∷ lit "cscript"
    ∷ lit "python"
    ∷ lit "python3"
    ∷ lit "node"
    ∷ lit "ruby"
    ∷ lit "perl"
    ∷ lit "mshta"
    ∷ lit "rundll32"
    ∷ lit "regsvr32"
    ∷ lit "wsl"
    ∷ []

unfoldable pub is_forbidden_executable : Host → Text → Bool
is_forbidden_executable host name =
    let lower = host.to_lower name in
    mem_text (host.ext lower) script_extensions
    || mem_text (trim_suffix lower (lit ".exe")) interpreters

-- `filepath.Base(name) != name || strings.ContainsAny(name, "/\\")`
unfoldable pub has_directory : Host → Text → Bool
has_directory host name =
    not (text_eq (host.base name) name) || contains_any name (b'/' ∷ b'\\' ∷ [])

unfoldable pub validate_executable : Host → Text → Text → Checked
validate_executable host name path = do
  fail_if (is_forbidden_executable host name) (unsafe_at path)
  fail_if (has_directory host name) (unsafe_at path)

unfoldable pub validate_executables : Host → Go → Text → List Text → Checked
validate_executables host go tool_id names =
    each_at
      (λ i name.
        validate_executable host name
          (indexed go (lit "runtime.tools." ++ (tool_id ++ lit ".executableNames")) i))
      0 names
