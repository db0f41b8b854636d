-- ===== src/Config.antt =====
-- The readers of the program's settings: the environment, and the small YAML files of config/.
pub mod Env
pub mod Yaml
pub mod Supabase
pub mod Loaders
