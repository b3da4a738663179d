-- ===== src/Orchestration/Indexing/Discovery/Runs.antt =====
-- discoverRemoteSourceMetadata and discoverRemoteSourceFiles of
-- src/internal/orchestration/handlers_indexing.go. The digest of a text, in hexadecimal, and what the
-- context says before each file are parameters. Of the first only the files, blobs and counts are read.
use gocodemunch_mcp.Base.{
  ℕ, Text, is_empty, Map, lookup, insert, Option, none, some, List, if◌then◌else◌, keys,
  sort_strings,
}
use gocodemunch_mcp.Base.Int.{ℤ, pos}
use gocodemunch_mcp.Orchestration.Indexing.Remote.{text_at, normalize_remote_blob_sha}
use gocodemunch_mcp.Orchestration.Indexing.Screening.{
  normalize_ignore_patterns, parse_gitignore_patterns,
}
use gocodemunch_mcp.Orchestration.Indexing.Discovery.{
  RemoteFileMetadata, Found, nothing_found, DiscoveryResult, screen_path, screen_metadata,
  screen_content, settle, increment, discovery_loop, file_limit, limit_result,
}

module _ (sha256_hex : Text → Text) where
  abbrev pub keep_metadata : RemoteFileMetadata → Text → Text → Found → Found
  keep_metadata meta rel_path language d =
      let blob = normalize_remote_blob_sha meta.blob_sha in
      record d {
        file_blob_shas =
            insert rel_path (if is_empty blob then sha256_hex rel_path else blob) d.file_blob_shas;
      }

  abbrev pub keep_content : Map Text → Text → Text → Text → Found → Found
  keep_content prefetched content rel_path language d =
      let hash = sha256_hex content in
      let blob = normalize_remote_blob_sha (text_at rel_path prefetched) in
      record d {
        file_hashes = insert rel_path hash d.file_hashes;
        file_blob_shas = insert rel_path (if is_empty blob then hash else blob) d.file_blob_shas;
        file_mtimes = insert rel_path (pos 0) d.file_mtimes;
        language_counts = increment language d.language_counts;
      }

  unfoldable pub metadata_file :
      Map RemoteFileMetadata → List Text → List Text → List Text → Text → Found → Found
  metadata_file files gitignore extra excluded raw d = elim (lookup raw files) [
    | none ↦ d
    | some meta ↦
        settle (keep_metadata meta)
          (screen_metadata meta (screen_path gitignore extra excluded raw)) d
  ]

  unfoldable pub content_file :
      Map Text → Map Text → List Text → List Text → List Text → Text → Found → Found
  content_file tree prefetched gitignore extra excluded raw d =
      settle (keep_content prefetched (text_at raw tree))
        (screen_content (text_at raw tree) (screen_path gitignore extra excluded raw)) d

module _ (sha256_hex : Text → Text) (ctx : ℕ → Option Text) where
  unfoldable pub discover_remote_source_metadata :
      Map RemoteFileMetadata → Text → List Text → List Text → ℤ → DiscoveryResult
  unfolding discovery_loop metadata_file
  discover_remote_source_metadata files gitignore extra excluded max_files =
      limit_result (file_limit max_files) (
        discovery_loop ctx
          (metadata_file sha256_hex files (parse_gitignore_patterns gitignore)
            (normalize_ignore_patterns extra) excluded)
          0 (sort_strings (keys files)) nothing_found)

  unfoldable pub discover_remote_source_files :
      Map Text → Text → List Text → List Text → ℤ → Map Text → DiscoveryResult
  unfolding discovery_loop content_file
  discover_remote_source_files tree gitignore extra excluded max_files prefetched =
      limit_result (file_limit max_files) (
        discovery_loop ctx
          (content_file sha256_hex tree prefetched (parse_gitignore_patterns gitignore)
            (normalize_ignore_patterns extra) excluded)
          0 (sort_strings (keys tree)) nothing_found)
