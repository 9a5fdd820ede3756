-- ===== src/Gcl.antt =====
-- The GCL serializer, dioxide_python_sdk/utils/serializer.py.
pub mod Value
pub mod Dict
pub mod TypeName
pub mod Float
pub mod Scalar
pub mod Variable
pub mod Table
pub mod Infer
pub mod Container
pub mod Serializer
pub mod Shape
mod Examples
