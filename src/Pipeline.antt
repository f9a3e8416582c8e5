-- ===== src/Pipeline.antt =====
-- workers/celery_app.py: the tasks of the pipeline.
pub mod Batch
pub mod Upsert
pub mod Stages
pub mod Detect
