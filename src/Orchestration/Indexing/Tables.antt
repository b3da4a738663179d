-- ===== src/Orchestration/Indexing/Tables.antt =====
-- The tables of src/internal/orchestration/handlers_indexing.go by which files are told apart.
use gocodemunch_mcp.Base.{Text, codes, Map, List, [], ◌∷◌}

abbrev pub source_extensions : Map Text
source_extensions =
    (codes ".al", codes "al")
    ∷ (codes ".blade.php", codes "blade")
    ∷ (codes ".c", codes "c")
    ∷ (codes ".cc", codes "cpp")
    ∷ (codes ".cpp", codes "cpp")
    ∷ (codes ".cs", codes "csharp")
    ∷ (codes ".cshtml", codes "razor")
    ∷ (codes ".cxx", codes "cpp")
    ∷ (codes ".dart", codes "dart")
    ∷ (codes ".ex", codes "elixir")
    ∷ (codes ".go", codes "go")
    ∷ (codes ".h", codes "c")
    ∷ (codes ".hpp", codes "cpp")
    ∷ (codes ".java", codes "java")
    ∷ (codes ".js", codes "javascript")
    ∷ (codes ".jsx", codes "javascript")
    ∷ (codes ".php", codes "php")
    ∷ (codes ".pl", codes "perl")
    ∷ (codes ".py", codes "python")
    ∷ (codes ".rb", codes "ruby")
    ∷ (codes ".rs", codes "rust")
    ∷ (codes ".sql", codes "sql")
    ∷ (codes ".swift", codes "swift")
    ∷ (codes ".ts", codes "typescript")
    ∷ (codes ".tsx", codes "typescript")
    ∷ (codes ".vue", codes "vue")
    ∷ (codes ".xml", codes "xml")
    ∷ (codes ".xul", codes "xml")
    ∷ []

abbrev pub skipped_directories : List Text
skipped_directories =
    codes ".git"
    ∷ codes ".hg"
    ∷ codes ".svn"
    ∷ codes ".venv"
    ∷ codes "venv"
    ∷ codes "node_modules"
    ∷ codes "dist"
    ∷ codes "build"
    ∷ codes "target"
    ∷ codes "coverage"
    ∷ codes "__pycache__"
    ∷ []

abbrev pub secret_path_hints : List Text
secret_path_hints =
    codes ".env"
    ∷ codes "api_key"
    ∷ codes "apikey"
    ∷ codes "credential"
    ∷ codes "credentials"
    ∷ codes "id_rsa"
    ∷ codes "passwd"
    ∷ codes "password"
    ∷ codes "private_key"
    ∷ codes "secret"
    ∷ codes "token"
    ∷ []

abbrev pub documentation_extensions : List Text
documentation_extensions =
    codes ".adoc"
    ∷ codes ".markdown"
    ∷ codes ".md"
    ∷ codes ".mdown"
    ∷ codes ".mkd"
    ∷ codes ".mkdn"
    ∷ codes ".rst"
    ∷ codes ".text"
    ∷ codes ".txt"
    ∷ codes ".wiki"
    ∷ []
