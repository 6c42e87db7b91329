-- ===== src/Profiling/Symbols.antt =====
-- profile_symbols.go: the frames of a stack, and which of them are the application's. The module of the
-- binary, from its environment or build, and the root of the toolchain are parameters; filepath.ToSlash
-- changes nothing on the systems where `/` separates.
use go_collector.Base.{
  ℕ, Bool, true, false, not, ◌&&◌, ◌||◌, List, [], ◌∷◌, ◌++◌, none, some, ◌==◌, if◌then◌else◌,
}
use go_collector.Base.Bytes.{Bytes, codes, is_empty, bytes_eq, has_prefix, trim_prefix}
use go_collector.Text.Lower.{to_lower, contains}
use go_collector.Text.Split.{split, join, cut}

pub record ProfileFrame : Type 0 where
  pub module_name : Bytes
  pub function : Bytes
  pub file : Bytes
  pub line : ℕ

abbrev pub internal_module : Bytes
internal_module = codes "internal"

abbrev pub sdk_package : Bytes
sdk_package = codes "chronos.dev/collector/sdk/go"

-- The text behind the last `/`, and the text up to it, which is empty without one.
unfoldable pub behind_slash : Bytes → Bytes × Bytes
behind_slash [] = ([], [])
behind_slash (c ∷ s) =
    let (head, tail) = behind_slash s in
    if is_empty head
    then (if c == b'/' then (c ∷ [], tail) else ([], c ∷ tail))
    else (c ∷ head, tail)

-- The first dot behind the last slash ends the package, unless nothing is in front of it.
unfoldable pub package_of : Bytes → Bytes
package_of function =
    let (head, segment) = behind_slash function in
    elim (cut b'.' segment) [
      | none ↦ []
      | some (name, _) ↦ if is_empty name then [] else head ++ name
    ]

abbrev pub first_or_nil : List Bytes → Bytes
first_or_nil [] = []
first_or_nil (p ∷ ps) = p

unfoldable pub infer_module_root : Bytes → Bytes
infer_module_root pkg =
    let parts = split b'/' pkg in
    let first = first_or_nil parts in
    if contains first (codes ".")
    then elim parts [ a ∷ b ∷ c ∷ _ ↦ join b'/' (a ∷ b ∷ c ∷ []) | _ ↦ pkg ]
    else first

unfoldable pub base_name : Bytes → Bytes
base_name path = (behind_slash path).1

abbrev pub is_sdk_frame : Bytes → Bool
is_sdk_frame function =
    has_prefix function (sdk_package ++ codes ".") || has_prefix function (sdk_package ++ codes "/")

abbrev pub runtime_frame : Bytes → Bool
runtime_frame function =
    has_prefix function (codes "runtime.")
    || (has_prefix function (codes "runtime/") || has_prefix function (codes "runtime_asm"))

-- strings.TrimRight of slashes.
unfoldable pub trim_right_slash : Bytes → Bytes
trim_right_slash [] = []
trim_right_slash (c ∷ s) =
    let rest = trim_right_slash s in if is_empty rest && c == b'/' then [] else c ∷ rest

abbrev pub under_root : Bytes → Bytes → Bool
under_root go_root lower =
    not (is_empty go_root) && has_prefix lower (trim_right_slash (to_lower go_root) ++ codes "/")

abbrev pub library_file : Bytes → Bytes → Bool
library_file go_root file =
    let lower = to_lower file in
    not (is_empty file)
    && (contains lower (codes "/pkg/mod/")
        || (contains lower (codes "/go/pkg/mod/")
            || (contains lower (codes "/vendor/")
                || (contains lower (codes "/src/runtime/")
                    || (under_root go_root lower || contains lower (codes "/go/src/"))))))

unfoldable pub is_library_frame : Bytes → Bytes → Bytes → Bool
is_library_frame go_root function file =
    (not (is_empty function) && (runtime_frame function || is_sdk_frame function))
    || library_file go_root file

-- The package against the module's root.
abbrev pub relative_to : Bytes → Bytes → Bytes
relative_to root pkg =
    if is_empty root
    then pkg
    else if bytes_eq pkg root
    then base_name root
    else trim_prefix pkg (root ++ codes "/")

unfoldable pub frame_module : Bytes → Bytes → Bytes → Bytes → Bytes → Bytes
frame_module main_module go_root function file mapping_module =
    let pkg = package_of function in
    if is_library_frame go_root function file
    then internal_module
    else if is_empty pkg
    then mapping_module
    else relative_to (if is_empty main_module then infer_module_root pkg else main_module) pkg

unfoldable pub has_userland_frame : List ProfileFrame → Bool
has_userland_frame [] = false
has_userland_frame (f ∷ fs) =
    (not (is_empty f.function)
      && (not (bytes_eq f.module_name internal_module) && not (is_sdk_frame f.function)))
    || has_userland_frame fs

unfoldable pub self_profiling_from : Bool → List ProfileFrame → Bool
self_profiling_from saw_sdk [] = saw_sdk
self_profiling_from saw_sdk (f ∷ fs) =
    let go_on = self_profiling_from saw_sdk fs in
    let seen = self_profiling_from true fs in
    if is_empty f.function
    then go_on
    else if is_sdk_frame f.function
    then seen
    else if not (bytes_eq f.module_name internal_module)
    then false
    else go_on

abbrev pub is_self_profiling_stack : List ProfileFrame → Bool
is_self_profiling_stack = self_profiling_from false
