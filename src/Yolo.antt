-- ===== src/Yolo.antt =====
-- yolov5n/yolov5n_common.c and yolov5n_common.h: what the stages of the network share. Tensors are
-- bytes of one memory; a tensor of h rows of w pixels of c channels stands row by row, and the
-- channels of a pixel stand together.
pub mod Bytes
pub mod Loops
pub mod Rows
pub mod Layer
pub mod Arena
pub mod Pack
pub mod Pool
pub mod Join
pub mod Residual
pub mod Conv
pub mod Stage
