-- ===== src/Host.antt =====
-- The functions of `strings`, `path`, `path/filepath`, `net`, `net/url` and the semver package that
-- the code calls. Nothing is assumed of them but what a theorem names.
use cliharbor.Prelude.{Bool, Option, List}
use cliharbor.Prelude.Text.{Text}

-- A parsed URL, as far as it is looked at; `has_user` is `User != nil`.
pub record Url : Type 0 where
  pub scheme : Text
  pub host : Text
  pub host_name : Text
  pub port : Text
  pub fragment : Text
  pub has_user : Bool

pub record Host : Type 0 where
  pub to_lower : Text → Text
  pub equal_fold : Text → Text → Bool
  -- `path` and `path/filepath`
  pub path_clean : Text → Text
  pub path_base : Text → Text
  pub clean : Text → Text
  pub base : Text → Text
  pub ext : Text → Text
  pub is_abs : Text → Bool
  pub join : Text → Text → Text
  pub parse_url : Text → Option Url
  -- `net.ParseIP(host) != nil`
  pub is_ip : Text → Bool
  -- `regexp.Compile` accepts
  pub compiles : Text → Bool
  -- `semver.NewConstraint`, `semver.NewVersion` and `Check`
  pub is_constraint : Text → Bool
  pub is_version : Text → Bool
  pub satisfies : Text → Text → Bool
  -- `filepath.SplitList`
  pub split_list : Text → List Text
  -- The first groups of the matches of `semverToken`, and of the one of `prefixedSemverToken`
  pub find_semver : Text → List Text
  pub prefixed_semver : Text → Option Text
  -- `semver.StrictNewVersion`, printed
  pub strict_version : Text → Option Text
