-- ===== src/Packs/Validation/Installs.antt =====
-- internal/packs/validation.go: `validateToolInstall` and the tests it is made of.
use cliharbor.Prelude.{
  ℕ, suc, Bool, true, false, not, ◌&&◌, ◌||◌, Option, none, some, List, [], ◌∷◌, ◌++◌, length, ◌==◌,
  leb, if◌then◌else◌, is_none,
}
use cliharbor.Prelude.Int.{ℤ, pos, ltb_ℤ}
use cliharbor.Prelude.Result.{ok, err, ◌>>=◌, ◌>>◌, fail_if, or_fail}
use cliharbor.Prelude.Text.{Text, lit, text_eq, is_empty}
use cliharbor.Prelude.Dict.{Dict, lookup}
use cliharbor.Prelude.Sort.{mem_text, sorted_keys}
use cliharbor.Prelude.Strings.{
  has_prefix, has_suffix, trim_suffix, contains_any, contains_byte, split_on,
}
use cliharbor.Prelude.Loop.{each}
use cliharbor.Go.{Go}
use cliharbor.Host.{Host, Url}
use cliharbor.Packs.{
  Tool, ToolInstall, InstallArtifact, InstallFormat, executable_format, zip_format, other_format,
}
use cliharbor.Packs.Validation.{Checked, semantic_at, indexed}

abbrev max_install_artifact_bytes : ℕ
max_install_artifact_bytes = 536870912

abbrev pub is_install_size : ℤ → Bool
is_install_size n = ltb_ℤ (pos 0) n && not (ltb_ℤ (pos max_install_artifact_bytes) n)

abbrev is_zero : ℤ → Bool
is_zero n = not (ltb_ℤ (pos 0) n) && not (ltb_ℤ n (pos 0))

abbrev is_hex : ℕ → Bool
is_hex c = (leb b'0' c && leb c b'9') || ((leb b'a' c && leb c b'f') || (leb b'A' c && leb c b'F'))

abbrev all_hex : Text → Bool
all_hex [] = true
all_hex (c ∷ cs) = is_hex c && all_hex cs

unfoldable pub valid_install_digest : Text → Bool
valid_install_digest t = (length t == 64) && all_hex t

abbrev is_label_byte : ℕ → Bool
is_label_byte c = (leb b'a' c && leb c b'z') || ((leb b'0' c && leb c b'9') || c == b'-')

abbrev all_label : Text → Bool
all_label [] = true
all_label (c ∷ cs) = is_label_byte c && all_label cs

unfoldable pub valid_label : Text → Bool
valid_label label =
    not (is_empty label)
    && (leb (length label) 63
        && (not (has_prefix label (lit "-"))
            && (not (has_suffix label (lit "-")) && all_label label)))

abbrev all_labels : List Text → Bool
all_labels [] = true
all_labels (l ∷ ls) = valid_label l && all_labels ls

-- A public host name: two labels or more, no address, nothing local.
unfoldable pub valid_install_host : Host → Text → Bool
valid_install_host host name =
    let h = host.to_lower (trim_suffix name (lit ".")) in
    let labels = split_on b'.' h in
    not
      (is_empty h || (text_eq h (lit "localhost") || (has_suffix h (lit ".local") || host.is_ip h)))
    && (not (contains_any h (b'/' ∷ b'\\' ∷ b':' ∷ b'@' ∷ []))
        && (leb 2 (length labels) && all_labels labels))

abbrev pub matches_declared : Host → Text → List Text → Text → Bool
matches_declared host actual [] platform = false
matches_declared host actual (name ∷ names) platform =
    host.equal_fold actual name
    || ((text_eq platform (lit "windows")
          && (is_empty (host.ext name) && host.equal_fold actual (name ++ lit ".exe")))
        || matches_declared host actual names platform)

unfoldable pub matches_install_executable : Host → Text → List Text → Text → Bool
matches_install_executable host actual declared platform =
    not (not (text_eq (host.base actual) actual) || contains_any actual (b'/' ∷ b'\\' ∷ []))
    && matches_declared host actual declared platform

unfoldable pub valid_archive_executable_path : Host → Text → Bool
valid_archive_executable_path host value =
    let cleaned = host.path_clean value in
    not (is_empty value || (contains_byte value b'\\' || has_prefix value (lit "/")))
    && (text_eq cleaned value
        && (not (text_eq cleaned (lit "."))
            && (not (text_eq cleaned (lit "..")) && not (has_prefix cleaned (lit "../")))))

-- The condition on an artifact's parsed URL.
unfoldable pub is_public_url : Host → Url → Bool
is_public_url host u =
    host.equal_fold u.scheme (lit "https")
    && (not (is_empty u.host)
        && (not u.has_user
            && (is_empty u.fragment && (is_empty u.port && valid_install_host host u.host_name))))

abbrev pub is_public_source : Host → Option Url → Bool
is_public_source host none = false
is_public_source host (some u) = is_public_url host u

unfoldable pub validate_redirects : Host → Go → Text → ℕ → List Text → List Text → Checked
validate_redirects host go path index seen [] = ok tt
validate_redirects host go path index seen (name ∷ names) =
    fail_if (not (text_eq name (host.to_lower name)) || not (valid_install_host host name))
      (semantic_at (indexed go (path ++ lit ".redirectHosts") index))
    >>= λ _.
        fail_if (mem_text (host.to_lower name) seen)
          (semantic_at (indexed go (path ++ lit ".redirectHosts") index))
        >>= λ _. validate_redirects host go path (suc index) (host.to_lower name ∷ seen) names

-- The `switch` over the format.
unfoldable pub validate_format : Host → InstallFormat → InstallArtifact → Text → Checked
validate_format host executable_format a path =
    fail_if
      (not (is_empty a.archive_path)
        || (not (is_empty a.executable_sha256) || not (is_zero a.executable_size_bytes)))
      (semantic_at path)
validate_format host zip_format a path = do
  fail_if (not (valid_archive_executable_path host a.archive_path))
      (semantic_at (path ++ lit ".archivePath"))
  fail_if (not (text_eq (host.path_base a.archive_path) a.executable_name))
      (semantic_at (path ++ lit ".archivePath"))
  fail_if (not (valid_install_digest a.executable_sha256))
      (semantic_at (path ++ lit ".executableSha256"))
  fail_if (not (is_install_size a.executable_size_bytes))
      (semantic_at (path ++ lit ".executableSizeBytes"))
validate_format host other_format a path = err (semantic_at (path ++ lit ".format"))

-- `parts[0]`, when there are two parts.
abbrev pub platform_of : List Text → Option Text
platform_of (platform ∷ arch ∷ []) = some platform
platform_of _ = none

unfoldable pub validate_artifact :
    Host → Go → List Text → List Text → Text → Text → InstallArtifact → Checked
unfolding validate_format
validate_artifact host go platforms names key path a = do
  platform ← or_fail (platform_of (split_on b'-' key)) (semantic_at path)
  fail_if (not (mem_text platform platforms)) (semantic_at path)
  fail_if (not (is_install_size a.size_bytes)) (semantic_at (path ++ lit ".sizeBytes"))
  fail_if (not (valid_install_digest a.sha256)) (semantic_at (path ++ lit ".sha256"))
  fail_if (not (is_public_source host (host.parse_url a.url))) (semantic_at (path ++ lit ".url"))
  fail_if (not (matches_install_executable host a.executable_name names platform))
      (semantic_at (path ++ lit ".executableName"))
  validate_redirects host go path 0 [] a.redirect_hosts
  validate_format host a.format a path

unfoldable pub validate_artifact_at :
    Host → Go → List Text → List Text → Dict InstallArtifact → Text → Text → Checked
unfolding validate_artifact
validate_artifact_at host go platforms names artifacts path key = elim (lookup key artifacts) [
  | none ↦ ok tt
  | some a ↦ validate_artifact host go platforms names key (path ++ (lit ".artifacts." ++ key)) a
]

unfoldable pub validate_constraint : Host → Text → Text → Text → Text → Checked
validate_constraint host constraint version tool_path path =
    if is_empty constraint then ok tt else (do
      fail_if (not (host.is_constraint constraint))
          (semantic_at (tool_path ++ lit ".versionConstraint"))
      fail_if (not (host.is_version version)) (semantic_at (path ++ lit ".version"))
      fail_if (not (host.satisfies constraint version)) (semantic_at (path ++ lit ".version")))

unfoldable pub validate_install : Host → Go → List Text → Text → Tool → ToolInstall → Checked
unfolding validate_artifact_at validate_constraint
validate_install host go platforms tool_id tool install = do
  let tool_path = lit "runtime.tools." ++ tool_id
  let path = tool_path ++ lit ".install"
  fail_if (is_none tool.version_probe) (semantic_at path)
  validate_constraint host tool.version_constraint install.version tool_path path
  each (validate_artifact_at host go platforms tool.executable_names install.artifacts path)
      (sorted_keys install.artifacts)

unfoldable pub validate_tool_install : Host → Go → List Text → Text → Tool → Checked
unfolding validate_install
validate_tool_install host go platforms tool_id tool = elim tool.install [
  | none ↦ ok tt
  | some install ↦ validate_install host go platforms tool_id tool install
]
