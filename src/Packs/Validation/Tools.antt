-- ===== src/Packs/Validation/Tools.antt =====
-- What `validateSemantics` guarantees of the tools of a pack.
use cliharbor.Prelude.{
  ℕ, suc, ◌≡◌, ◌<◌, ◌≤◌, ◌⊎◌, ◌&&◌, leb, length, refl, subst, ◌∙◌, true, false, not, some, List, [],
  ◌∷◌, ◌++◌, inl, inr, is_none, Option-cases, Bool-cases, arith,
}
use cliharbor.Prelude.Result.{ok, ◌>>◌, after_ok, after_check, after_some}
use cliharbor.Prelude.Int.{ℤ, pos, negsuc}
use cliharbor.Prelude.Text.{Text, lit, is_empty, text_eq, text_eq→eq}
use cliharbor.Prelude.Dict.{Dict, keys, lookup}
use cliharbor.Prelude.Sort.{sorted_keys, mem_text, mem_text-sort, lookup-mem_text}
use cliharbor.Prelude.Strings.{split_on, trim_suffix, contains_any, has_suffix}
use cliharbor.Prelude.Loop.{each, each_at, each-member}
use cliharbor.Go.{Go}
use cliharbor.Host.{Host, Url}
use cliharbor.Packs.{Pack, Tool, Command, SessionCheck, ToolInstall, InstallArtifact, Input}
use cliharbor.Packs.Validation.{indexed}
use cliharbor.Packs.Validation.Executables.{
  is_forbidden_executable, has_directory, validate_executable, validate_executables,
}
use cliharbor.Packs.Validation.Installs.{
  valid_install_digest, matches_declared, matches_install_executable, valid_install_host,
  is_install_size, is_public_url, is_public_source, platform_of, validate_artifact,
  validate_artifact_at, validate_install, validate_tool_install, validate_constraint,
}
use cliharbor.Packs.Validation.Sessions.{
  is_read, uses_vendor_session, no_inputs, validate_session_check, validate_session_command,
}
use cliharbor.Packs.Validation.Semantics.{
  validate_semantics, validate_tool, validate_command_at, validate_session_at,
}

key_listed :
    {V : Type 0} (id : Text) (m : Dict V) {v : V}
    → lookup id m ≡ some v
    → mem_text id (sorted_keys m) ≡ true
key_listed id m found = mem_text-sort id (keys m) ∙ lookup-mem_text id m (ground (arith, found))

validate_semantics-tool :
    (host : Host) (go : Go) (pack : Pack) (id : Text) (tool : Tool) {u : Unit {0}}
    → validate_semantics host go pack ≡ ok u
    → lookup id pack.runtime.tools ≡ some tool
    → validate_executables host go id tool.executable_names
        >> validate_tool_install host go pack.runtime.platforms id tool
      ≡ ok tt
unfolding validate_semantics validate_tool
validate_semantics-tool host go pack id tool h found =
    after_ok (each (validate_tool host go pack) (sorted_keys pack.runtime.tools)) h (λ u tools rest.
      let valid : validate_tool host go pack id ≡ ok tt =
        each-member (validate_tool host go pack) (sorted_keys pack.runtime.tools) id tools
          (key_listed id pack.runtime.tools found) in
      ground (arith, valid, found))

validate_executable_at :
    (host : Host) (path : ℕ → Text) (i : ℕ) (names : List Text) (name : Text) {u : Unit {0}}
    → each_at (λ k n. validate_executable host n (path k)) i names ≡ ok u
    → mem_text name names ≡ true
    → (is_forbidden_executable host name ≡ false) × (has_directory host name ≡ false)
unfolding each_at mem_text validate_executable
validate_executable_at host path i [] name h m = absurd (cc m)
validate_executable_at host path i (n ∷ names) name h m =
    after_ok (validate_executable host n (path i)) h (λ u valid rest.
      elim (Bool-cases (text_eq n name)) [
        | inl same ↦
            subst (λ t. (is_forbidden_executable host t ≡ false) × (has_directory host t ≡ false))
              (text_eq→eq n name same)
              (after_check (is_forbidden_executable host n) _ valid
                (λ a last. (a, ground (arith, last))))
        | inr other ↦
            validate_executable_at host path (suc i) names name rest (ground (arith, m, other))
      ])

-- The programs that a pack must not name, as PACK_SPEC.md means them: shells, script hosts and
-- interpreters.
abbrev pub unsafe_programs : List Text
unsafe_programs =
    lit "cmd"
    ∷ lit "powershell"
    ∷ lit "pwsh"
    ∷ lit "sh"
    ∷ lit "bash"
    ∷ lit "zsh"
    ∷ lit "fish"
    ∷ lit "wscript"
    ∷ lit "cscript"
    ∷ lit "python"
    ∷ lit "python3"
    ∷ lit "node"
    ∷ lit "ruby"
    ∷ lit "perl"
    ∷ lit "mshta"
    ∷ lit "rundll32"
    ∷ lit "regsvr32"
    ∷ lit "wsl"
    ∷ []

-- The extensions of Windows scripts.
abbrev pub unsafe_extensions : List Text
unsafe_extensions =
    lit ".bat"
    ∷ lit ".cmd"
    ∷ lit ".ps1"
    ∷ lit ".psm1"
    ∷ lit ".vbs"
    ∷ lit ".vbe"
    ∷ lit ".js"
    ∷ lit ".jse"
    ∷ lit ".wsf"
    ∷ lit ".wsh"
    ∷ lit ".hta"
    ∷ []

-- A name that starts none of these programs and scripts, and no file of another directory.
pub record SafeName (host : Host) (name : Text) : Type 0 where
  pub no_program : mem_text (trim_suffix (host.to_lower name) (lit ".exe")) unsafe_programs ≡ false
  pub no_script : mem_text (host.ext (host.to_lower name)) unsafe_extensions ≡ false
  pub is_base : host.base name ≡ name
  pub no_separator : contains_any name (lit "/\\") ≡ false

safe_name :
    (host : Host) (name : Text)
    → is_forbidden_executable host name ≡ false
    → has_directory host name ≡ false
    → SafeName host name
unfolding is_forbidden_executable has_directory
safe_name host name f d = record {
  no_program = ground (arith, f);
  no_script = ground (arith, f);
  is_base = text_eq→eq (host.base name) name (ground (arith, d));
  no_separator = ground (arith, d);
}

-- In a pack that `validateSemantics` accepts, a declared executable name of a tool, in small letters
-- and without `.exe`, is none of the eighteen shells, script hosts and interpreters cmd, powershell,
-- pwsh, sh, bash, zsh, fish, wscript, cscript, python, python3, node, ruby, perl, mshta, rundll32,
-- regsvr32 and wsl; it has none of the eleven extensions of Windows scripts .bat, .cmd, .ps1, .psm1,
-- .vbs, .vbe, .js, .jse, .wsf, .wsh and .hta; and it is a base name without a slash or a backslash.
pub validate_semantics-executables :
    (host : Host) (go : Go) (pack : Pack) (id name : Text) (tool : Tool) {u : Unit {0}}
    → validate_semantics host go pack ≡ ok u
    → lookup id pack.runtime.tools ≡ some tool
    → mem_text name tool.executable_names ≡ true
    → SafeName host name
unfolding validate_executables
validate_semantics-executables host go pack id name tool h found m =
    after_ok (validate_executables host go id tool.executable_names)
      (validate_semantics-tool host go pack id tool h found)
      (λ u valid rest.
        let (f, d) =
          validate_executable_at host
            (indexed go (lit "runtime.tools." ++ (id ++ lit ".executableNames"))) 0
            tool.executable_names name valid m in
        safe_name host name f d)

-- A command that a session check may run unasked.
pub record SessionCommand (pack : Pack) (id : Text) (check : SessionCheck) : Type 0 where
  pub command : Command
  pub declared : lookup check.command_id pack.commands ≡ some command
  pub same_tool : command.tool ≡ id
  pub reads : is_read command.risk ≡ true
  pub asks_nothing : command.inputs ≡ []
  pub no_secrets : command.output.sensitivity.contains_secrets ≡ false
  pub authenticated : command.requirements.requires_auth ≡ true
  pub vendor_session : uses_vendor_session command.requirements.auth_mode ≡ true

no_inputs-empty : (inputs : List Input) → no_inputs inputs ≡ true → inputs ≡ []
no_inputs-empty [] h = refl
no_inputs-empty (i ∷ is) h = absurd (cc h)

validate_session_check-SessionCommand :
    (go : Go) (pack : Pack) (id : Text) (check : SessionCheck) {u : Unit {0}}
    → validate_session_check go pack id check ≡ ok u
    → SessionCommand pack id check
unfolding validate_session_check validate_session_command
validate_session_check-SessionCommand go pack id check h =
    after_some (lookup check.command_id pack.commands) _ h (λ c found h1.
      after_ok (validate_session_command c id _) h1 (λ u valid rest.
        after_check (not (text_eq c.tool id)) _ valid (λ e1 v1.
          after_check (not (is_read c.risk)) _ v1 (λ e2 v2.
            after_check (not (no_inputs c.inputs)) _ v2 (λ e3 v3.
              after_check c.output.sensitivity.contains_secrets _ v3 (λ e4 v4. record {
                command = c;
                declared = found;
                same_tool = text_eq→eq c.tool id (ground (arith, e1));
                reads = ground (arith, e2);
                asks_nothing = no_inputs-empty c.inputs (ground (arith, e3));
                no_secrets = e4;
                authenticated = ground (arith, v4);
                vendor_session = ground (arith, v4);
              }))))))

-- In a pack that `validateSemantics` accepts, the command of a tool's session check is declared, uses
-- that tool, only reads, takes no input, returns no secrets, and requires authentication in the mode
-- of a vendor session.
pub validate_semantics-SessionCommand :
    (host : Host) (go : Go) (pack : Pack) (id : Text) (tool : Tool) (check : SessionCheck)
    {u : Unit {0}}
    → validate_semantics host go pack ≡ ok u
    → lookup id pack.runtime.tools ≡ some tool
    → tool.session_check ≡ some check
    → SessionCommand pack id check
unfolding validate_semantics validate_session_at
validate_semantics-SessionCommand host go pack id tool check h found has =
    after_ok (each (validate_tool host go pack) (sorted_keys pack.runtime.tools)) h (λ u tools h1.
      after_ok (each (validate_command_at host go pack) (sorted_keys pack.commands)) h1 (λ u' cs h2.
        let valid : validate_session_at go pack id ≡ ok tt =
          each-member (validate_session_at go pack) (sorted_keys pack.runtime.tools) id h2
            (key_listed id pack.runtime.tools found) in
        validate_session_check-SessionCommand go pack id check (ground (arith, valid, found, has))))

-- The executable's name is a declared one up to case, on Windows perhaps with `.exe` added.
abbrev pub Names : Host → Text → Text → Text → Type 0
Names host platform actual name =
    (host.equal_fold actual name ≡ true)
    ⊎ ((platform ≡ lit "windows") × (host.equal_fold actual (name ++ lit ".exe") ≡ true))

abbrev pub NamesOne : Host → Text → Text → List Text → Type 0
NamesOne host platform actual [] = ⊥
NamesOne host platform actual (name ∷ names) =
    Names host platform actual name ⊎ NamesOne host platform actual names

-- An HTTPS address of a host under its name, with nothing else in it.
pub record PublicUrl (host : Host) (u : Url) : Type 0 where
  pub https : host.equal_fold u.scheme (lit "https") ≡ true
  pub no_user : u.has_user ≡ false
  pub no_fragment : is_empty u.fragment ≡ true
  pub no_port : is_empty u.port ≡ true
  pub no_address : host.is_ip (host.to_lower (trim_suffix u.host_name (lit "."))) ≡ false
  pub not_local :
      text_eq (host.to_lower (trim_suffix u.host_name (lit "."))) (lit "localhost") ≡ false
  pub not_mdns :
      has_suffix (host.to_lower (trim_suffix u.host_name (lit "."))) (lit ".local") ≡ false
  pub two_labels :
      leb 2 (length (split_on b'.' (host.to_lower (trim_suffix u.host_name (lit "."))))) ≡ true

-- An artifact that may be downloaded and run.
pub record TrustedArtifact (host : Host) (pack : Pack) (tool : Tool) (key : Text)
    (a : InstallArtifact) : Type 0 where
  pub platform : Text
  pub arch : Text
  pub has_platform : split_on b'-' key ≡ platform ∷ arch ∷ []
  pub declared : mem_text platform pack.runtime.platforms ≡ true
  pub source : Url
  pub parsed : host.parse_url a.url ≡ some source
  pub public : PublicUrl host source
  pub size : ℕ
  pub sized : (a.size_bytes ≡ pos size) × (0 < size) × (size ≤ 536870912)
  pub digest : length a.sha256 ≡ 64
  pub base_name : host.base a.executable_name ≡ a.executable_name
  pub named : NamesOne host platform a.executable_name tool.executable_names

public_url : (host : Host) (u : Url) → is_public_url host u ≡ true → PublicUrl host u
unfolding is_public_url valid_install_host
public_url host u h = record {
  https = ground (arith, h);
  no_user = ground (arith, h);
  no_fragment = ground (arith, h);
  no_port = ground (arith, h);
  no_address = ground (arith, h);
  not_local = ground (arith, h);
  not_mdns = ground (arith, h);
  two_labels = ground (arith, h);
}

size_of : (n : ℤ) → is_install_size n ≡ true → (k : ℕ) × (n ≡ pos k) × (0 < k) × (k ≤ 536870912)
size_of (pos k) h = (k, refl, ground (arith, h), ground (arith, h))
size_of (negsuc k) h = absurd (cc h)

parts_of :
    (parts : List Text) (p : Text)
    → platform_of parts ≡ some p
    → (arch : Text) × (parts ≡ p ∷ arch ∷ [])
parts_of [] p h = absurd (cc h)
parts_of (x ∷ []) p h = absurd (cc h)
parts_of (x ∷ y ∷ []) p h = (y, cc h)
parts_of (x ∷ y ∷ z ∷ rest) p h = absurd (cc h)

names_one :
    (host : Host) (actual platform : Text) (names : List Text)
    → matches_declared host actual names platform ≡ true
    → NamesOne host platform actual names
names_one host actual platform [] h = absurd (cc h)
names_one host actual platform (name ∷ names) h = elim (Bool-cases (host.equal_fold actual name)) [
  | inl same ↦ inl (inl same)
  | inr other ↦
      elim (Bool-cases (
        text_eq platform (lit "windows")
        && (is_empty (host.ext name) && host.equal_fold actual (name ++ lit ".exe")))) [
          | inl exe ↦
              inl (
                inr
                  (text_eq→eq platform (lit "windows") (ground (arith, exe)), ground (arith, exe)))
          | inr more ↦ inr (names_one host actual platform names (ground (arith, h, other, more)))
        ]
]

named_of :
    (host : Host) (actual platform : Text) (names : List Text)
    → matches_install_executable host actual names platform ≡ true
    → (host.base actual ≡ actual) × NamesOne host platform actual names
unfolding matches_install_executable
named_of host actual platform names h = (
  text_eq→eq (host.base actual) actual (ground (arith, h)),
  names_one host actual platform names (ground (arith, h)),
)

digest_of : (t : Text) → valid_install_digest t ≡ true → length t ≡ 64
unfolding valid_install_digest
digest_of t h = ground (arith, h)

validate_artifact-TrustedArtifact :
    (host : Host) (go : Go) (pack : Pack) (tool : Tool) (key path : Text) (a : InstallArtifact)
    {u : Unit {0}}
    → validate_artifact host go pack.runtime.platforms tool.executable_names key path a ≡ ok u
    → TrustedArtifact host pack tool key a
unfolding validate_artifact
validate_artifact-TrustedArtifact host go pack tool key path a h =
    after_some (platform_of (split_on b'-' key)) _ h (λ platform has h1.
      after_check (not (mem_text platform pack.runtime.platforms)) _ h1 (λ e1 h2.
        after_check (not (is_install_size a.size_bytes)) _ h2 (λ e2 h3.
          after_check (not (valid_install_digest a.sha256)) _ h3 (λ e3 h4.
            after_check (not (is_public_source host (host.parse_url a.url))) _ h4 (λ e4 h5.
              elim (Option-cases (host.parse_url a.url)) [
                | inl e ↦ absurd (ground (arith, e, e4))
                | inr (source, e) ↦
                    let (arch, parts) = parts_of (split_on b'-' key) platform has in
                    let sized = size_of a.size_bytes (ground (arith, e2)) in
                    let (base, named) =
                      named_of host a.executable_name platform tool.executable_names
                        (ground (arith, h5)) in
                    (record {
                      platform = platform;
                      arch = arch;
                      has_platform = parts;
                      declared = ground (arith, e1);
                      source = source;
                      parsed = e;
                      public = public_url host source (ground (arith, e, e4));
                      size = sized.0;
                      sized = (sized.1, sized.2, sized.3);
                      digest = digest_of a.sha256 (ground (arith, e3));
                      base_name = base;
                      named = named;
                    })
              ])))))

-- In a pack that `validateSemantics` accepts, the key of every install artifact of a tool is a
-- declared platform and an architecture; its address is an HTTPS URL without a user, a fragment or a
-- port, whose host has two labels at least and is no IP address, not localhost and not under .local;
-- its size is from 1 byte to 512 MiB; its digest has 64 characters; and its executable is a base name
-- that is a declared name of the tool up to case, on Windows perhaps with .exe added.
pub validate_semantics-TrustedArtifact :
    (host : Host) (go : Go) (pack : Pack) (id key : Text) (tool : Tool) (install : ToolInstall)
    (a : InstallArtifact) {u : Unit {0}}
    → validate_semantics host go pack ≡ ok u
    → lookup id pack.runtime.tools ≡ some tool
    → tool.install ≡ some install
    → lookup key install.artifacts ≡ some a
    → TrustedArtifact host pack tool key a
unfolding validate_tool_install validate_install validate_artifact_at
validate_semantics-TrustedArtifact host go pack id key tool install a h found has listed =
    after_ok (validate_executables host go id tool.executable_names)
      (validate_semantics-tool host go pack id tool h found)
      (λ u valid rest.
        let here : validate_install host go pack.runtime.platforms id tool install ≡ ok tt =
          ground (arith, rest, has) in
        after_check (is_none tool.version_probe) _ here (λ e h1.
          after_ok
            (validate_constraint host tool.version_constraint install.version
              (lit "runtime.tools." ++ id) (lit "runtime.tools." ++ id ++ lit ".install"))
            h1
            (λ u' c h2.
              let one : validate_artifact_at host go pack.runtime.platforms tool.executable_names
                    install.artifacts (lit "runtime.tools." ++ id ++ lit ".install") key
                  ≡ ok tt =
                each-member
                  (validate_artifact_at host go pack.runtime.platforms tool.executable_names
                    install.artifacts (lit "runtime.tools." ++ id ++ lit ".install"))
                  (sorted_keys install.artifacts) key h2
                  (key_listed key install.artifacts listed) in
              validate_artifact-TrustedArtifact host go pack tool key
                (lit "runtime.tools." ++ id ++ lit ".install" ++ (lit ".artifacts." ++ key)) a
                (ground (arith, one, listed)))))
