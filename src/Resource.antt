-- ===== src/Resource.antt =====
-- resource.go: the attributes of the process, under those of a span. The build of the process is data:
-- the version of runtime.Version and the settings of debug.ReadBuildInfo, `none` where it has none.
use go_collector.Base.{
  not, List, [], ◌∷◌, ◌≡◌, refl, ◌∙◌, Option, none, some, if◌then◌else◌, Bool-cases, inl, inr,
}
use go_collector.Base.Assoc.{lookup, put, lookup-put}
use go_collector.Base.Bytes.{Bytes, codes, is_empty, bytes_eq, trim_prefix}
use go_collector.Config.{Config}

abbrev pub Attributes : Type 0
Attributes = List (Bytes × Bytes)

pub record Build : Type 0 where
  pub version : Bytes
  pub settings : Option (List (Bytes × Bytes))

abbrev pub put_setting : Bytes → Bytes → Attributes → Attributes
put_setting key value attrs =
    if bytes_eq key (codes "vcs.revision")
    then if not (is_empty value) then put (codes "app.commit") value attrs else attrs
    else if bytes_eq key (codes "vcs.modified")
    then if bytes_eq value (codes "true")
      then put (codes "app.dirty") (codes "true") attrs
      else attrs
    else attrs

abbrev pub put_settings : List (Bytes × Bytes) → Attributes → Attributes
put_settings [] attrs = attrs
put_settings ((key, value) ∷ settings) attrs = put_settings settings (put_setting key value attrs)

-- The settings' part, where the binary carries them.
abbrev pub put_build : Option (List (Bytes × Bytes)) → Attributes → Attributes
put_build none attrs = attrs
put_build (some settings) attrs = put_settings settings attrs

abbrev pub process_attributes : Build → Attributes
process_attributes build =
    let version = trim_prefix build.version (codes "go") in
    let language = (codes "app.language", codes "go") ∷ [] in
    put_build build.settings (
      if not (is_empty version)
      then put (codes "app.language.version") version language
      else language)

-- The entries of the first map put over the second. The order in which Go ranges over a map does not
-- matter, since its keys are distinct.
unfoldable pub merge : Attributes → Attributes → Attributes
merge [] base = base
merge ((key, value) ∷ attrs) base = put key value (merge attrs base)

abbrev pub put_version : Bytes → Attributes → Attributes
put_version version attrs =
    if not (is_empty version)
    then put (codes "service.version") version (put (codes "app.version") version attrs)
    else attrs

unfoldable pub with_resource_attributes : Build → Attributes → Config → Attributes
with_resource_attributes build attrs cfg =
    merge attrs (put_version cfg.service_version (merge (process_attributes build) []))

abbrev pub or_else : Option Bytes → Option Bytes → Option Bytes
or_else (some v) o = some v
or_else none o = o

pub lookup-merge :
    (k : Bytes) (attrs base : Attributes)
    → lookup k (merge attrs base) ≡ or_else (lookup k attrs) (lookup k base)
unfolding lookup merge
lookup-merge k [] base = refl
lookup-merge k ((j, v) ∷ attrs) base =
    lookup-put j k v (merge attrs base) ∙ elim (Bool-cases (bytes_eq j k)) [
      | inl same ↦ rw same refl
      | inr other ↦ rw other (lookup-merge k attrs base)
    ]
