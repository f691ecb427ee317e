-- ===== src/Branding.antt =====
-- Tenant branding (components/platform/business_logic/branding).
pub mod SiteValues
pub mod BundleAssets
pub mod ThemeTokens
pub mod Fonts
pub mod Bundle
