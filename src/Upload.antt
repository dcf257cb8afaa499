-- ===== src/Upload.antt =====
-- services/ingestion_service/ and apps/api/routers/v1/ingest.py: the upload of a CSV file by a device:
-- the checks of its headers, the ledger of uploads and retained payloads, and the request handler.
pub mod Headers
pub mod Ledger
pub mod Handler
pub mod Laws
