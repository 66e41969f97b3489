-- ===== src/Config/Overrides.antt =====
-- The runtime overrides of `PUT /config` in src/rastir/server/app.py, and how the loader of
-- src/rastir/server/config.py reads them back.
use rastir.Base.{
  String, ◌≡◌, refl, inl, inr, Option-cases, Option, none, some, List, [], ◌∷◌, arith, str_eq,
  eq_iff, if◌then◌else◌,
}
use rastir.Dict
use rastir.Dict.{Dict}
use rastir.Dict.Laws.{get-put}
use rastir.Config.Loading
use rastir.Config.Loading.{
  Setting, null, File, present, in_section, file_value, first_of, AsType, Outside,
}

-- `existing[section].update(values)`
unfoldable pub update : Dict Setting → Dict Setting → Dict Setting
update [] existing = existing
update ((key, v) ∷ values) existing = update values (Dict.put key v existing)

-- one section of the request; `none` is the exception of a section that is no dictionary.
unfoldable pub merge_section :
    String → Dict Setting → Option (Option (Dict Setting)) → File → Option File
unfolding update
merge_section section values none file = some (Dict.put section (some (update values [])) file)
merge_section section values (some none) file = none
merge_section section values (some (some existing)) file =
    some (Dict.put section (some (update values existing)) file)

-- the loop that merges the new values
unfoldable pub merge : List (String × Dict Setting) → File → Option File
unfolding merge_section
merge [] file = some file
merge ((section, values) ∷ body) file =
    elim (merge_section section values (Dict.get section file) file) [
      | none ↦ none
      | some file' ↦ merge body file'
    ]

-- The last value that a request has for a key.
unfoldable pub last_value : String → Dict Setting → Option Setting
last_value key [] = none
last_value key ((k, v) ∷ values) = elim (last_value key values) [
  | some later ↦ some later
  | none ↦ if str_eq k key then some v else none
]

unfoldable pub requested : String → String → List (String × Dict Setting) → Option Setting
requested section key [] = none
requested section key ((name, values) ∷ body) = elim (requested section key body) [
  | some later ↦ some later
  | none ↦ if str_eq name section then last_value key values else none
]

abbrev pub or_earlier : Option Setting → Option Setting → Option Setting
or_earlier none earlier = earlier
or_earlier (some v) earlier = some v

update_lem :
    (key : String) (values existing : Dict Setting)
    → Dict.get key (update values existing)
      ≡ or_earlier (last_value key values) (Dict.get key existing)
unfolding update last_value
update_lem key [] existing = refl
update_lem key ((k, v) ∷ values) existing =
    ground (arith, update_lem key values (Dict.put k v existing), get-put k key v existing)

-- What a file holds for a key, `null` included.
abbrev pub held_in : String → Option (Option (Dict Setting)) → Option Setting
held_in key (some (some section)) = Dict.get key section
held_in key _ = none

abbrev pub held : File → String → String → Option Setting
held file section key = held_in key (Dict.get section file)

merge_section_lem :
    (name : String) (values : Dict Setting) (o : Option (Option (Dict Setting))) (file file' : File)
    (section key : String)
    → Dict.get name file ≡ o
    → merge_section name values o file ≡ some file'
    → held file' section key
      ≡ or_earlier
          (if str_eq name section then last_value key values else none)
          (held file section key)
unfolding merge_section Dict.get
merge_section_lem name values none file file' section key e h = ground (
  arith,
  eq_iff name section,
  update_lem key values [],
  get-put name section (some (update values [])) file,
)
merge_section_lem name values (some none) file file' section key e h = absurd (ground arith)
merge_section_lem name values (some (some existing)) file file' section key e h = ground (
  arith,
  eq_iff name section,
  update_lem key values existing,
  get-put name section (some (update values existing)) file,
)

merge_lem :
    (body : List (String × Dict Setting)) (file file' : File) (section key : String)
    → merge body file ≡ some file'
    → held file' section key ≡ or_earlier (requested section key body) (held file section key)
unfolding merge requested
merge_lem [] file file' section key h = ground arith
merge_lem ((name, values) ∷ body) file file' section key h =
    elim (Option-cases (merge_section name values (Dict.get name file) file)) [
      | inl e ↦ absurd (ground (arith, e))
      | inr (f, e) ↦ ground (
        arith,
        e,
        merge_lem body f file' section key,
        merge_section_lem name values (Dict.get name file) file f section key refl e,
      )
    ]

file_value-held :
    (file : File) (section key : String)
    → file_value file section key ≡ present (held file section key)
unfolding file_value
file_value-held file section key = by_section (Dict.get section file)
  where
    by_section : (o : Option (Option (Dict Setting))) → in_section key o ≡ present (held_in key o)
    by_section none = refl
    by_section (some none) = refl
    by_section (some (some values)) = refl

-- What a setting is after a request for it, with the value `old` before it and the value `without` it
-- where no override is there.
abbrev pub overridden : Option Setting → Setting → Setting → Setting
overridden none old without = old
overridden (some null) old without = without
overridden (some v) old without = v

module _ (outside : Outside) (yaml : File) where
  -- After a merge that went through, the loader gives for each setting the last value that the
  -- request has for it, whatever the environment and the configuration file say; for a null, what it
  -- gives without overrides; a setting that the request leaves out is read as before.
  pub get-merge :
      (body : List (String × Dict Setting)) (file file' : File) (type : AsType)
      (section key : String) (default : Setting)
      → merge body file ≡ some file'
      → Loading.get outside yaml file' type section key default
        ≡ overridden
            (requested section key body)
            (Loading.get outside yaml file type section key default)
            (Loading.get outside yaml [] type section key default)
  unfolding Loading.get Dict.get
  get-merge body file file' type section key default h = ground (
    arith,
    merge_lem body file file' section key h,
    file_value-held file' section key,
    file_value-held file section key,
    file_value-held [] section key,
  )
