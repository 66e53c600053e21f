-- ===== src/Yolo/Conv/Pointwise.antt =====
-- `yolov5n_run_conv1x1_layer` (yolov5n/yolov5n_common.c): a layer that reads each pixel by itself.
