-- ===== src/Models/Language.antt =====
-- The languages of the editor (shared/models/languages.model.ts). The sample programs of
-- langcodes.model.ts are texts that are only shown: a sample stands here by its name there.
pub mod Lookup
use editor_sh.Prelude.{String, Option, List, [], ◌∷◌, find?, str_eq}

pub record Language : Type 0 where
  pub id : String
  pub name : String
  pub editor_language : String
  pub langcode : String

abbrev language : String → String → String → String → Language
language id name editor_language langcode = record {
  id = id;
  name = name;
  editor_language = editor_language;
  langcode = langcode;
}

-- `LanguageList`, with the static members of `Languages` written out.
abbrev pub language_list : List Language
language_list =
    language "bash" "Bash" "shell" "bash"
    ∷ language "c" "C" "c" "c"
    ∷ language "csharp" "CSharp" "csharp" "csharp"
    ∷ language "cpp" "Cpp" "cpp" "cpp"
    ∷ language "clojure" "Clojure" "clojure" "clojure"
    ∷ language "coffeescript" "CoffeeScript" "coffeescript" "coffeescript"
    ∷ language "crystal" "Crystal" "ruby" "crystal"
    ∷ language "elixir" "Elixir" "elixir" "elixir"
    ∷ language "erlang" "Erlang" "erlang" "erlang"
    ∷ language "fsharp" "FSharp" "fsharp" "fsharp"
    ∷ language "go" "Go" "go" "go"
    ∷ language "haskell" "Haskell" "haskell" "haskell"
    ∷ language "java" "Java" "java" "java"
    ∷ language "javascript" "JavaScript" "javascript" "javascript"
    ∷ language "kotlin" "Kotlin" "kotlin" "kotlin"
    ∷ language "markdown" "Markdown" "markdown" "markdown"
    ∷ language "mysql" "MySQL" "mysql" "mysql"
    ∷ language "ocaml" "OCaml" "ocaml" "ocaml"
    ∷ language "objc" "Objective-C" "objective-c" "objc"
    ∷ language "php" "PHP" "php" "php"
    ∷ language "perl" "Perl" "perl" "perl"
    ∷ language "perl6" "Perl 6" "perl" "perl6"
    ∷ language "plaintext" "Plain Text" "plaintext" "plaintext"
    ∷ language "postgres" "PostgreSQL" "sql" "postgres"
    ∷ language "python2" "Python 2" "python" "python2"
    ∷ language "python3" "Python 3" "python" "python3"
    ∷ language "r" "R" "r" "r"
    ∷ language "ruby" "Ruby" "ruby" "ruby"
    ∷ language "rust" "Rust" "rust" "rust"
    ∷ language "scala" "Scala" "scala" "scala"
    ∷ language "swift" "Swift 5" "swift" "swift"
    ∷ language "typescript" "Typescript" "typescript" "typescript"
    ∷ language "vb" "Visual Basic" "vb" "vb"
    ∷ []

-- `Languages.getLanguageById`
unfoldable pub get_language_by_id : String → Option Language
get_language_by_id id = find? (λ it. str_eq it.id id) language_list
