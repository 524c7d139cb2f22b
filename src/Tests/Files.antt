-- ===== src/Tests/Files.antt =====
-- File names and a compose file.
use cangling_update.Base.{false, [], ◌∷◌, ◌≡◌, refl, any, is_empty}
use cangling_update.Text.{
  Text, text, text_eq, split_by, trim_matches, is_whitespace, to_lower, lines,
}
use cangling_update.Errors.{ok}
use cangling_update.Paths.{
  safe_filename, file_name, is_separator, parse_compose_jar_mounts, jar_mounts, volume_host_path,
  service_after, is_jar_name,
}
use cangling_update.Paths.Names.{safe_filename-safe}

safe_filename-safe_example :
    (is_empty (text "app.jar") ≡ false)
    × (text_eq (text "app.jar") (text "..") ≡ false)
    × (any is_separator (text "app.jar") ≡ false)
    × (safe_filename (text "app.jar") ≡ ok (text "app.jar"))
safe_filename-safe_example =
    safe_filename-safe (text "../etc/app.jar/")
      (unfold safe_filename file_name split_by trim_matches is_whitespace text in refl)

abbrev compose : Text
compose =
    text
      "services:\n  web:\n    volumes:\n      - \"./lib/App.JAR:/app/App.JAR\"\n      - ./a.jar:/a.jar\n"

-- The check for `.jar` in a volume is not blind to case.
compose_mounts :
    parse_compose_jar_mounts compose
    ≡ record { service = text "web"; host_path = text "./a.jar"; basename = text "a.jar" } ∷ []
unfolding parse_compose_jar_mounts lines
compose_mounts =
    unfold jar_mounts volume_host_path service_after is_jar_name file_name split_by trim_matches
      is_whitespace to_lower text in
    refl
